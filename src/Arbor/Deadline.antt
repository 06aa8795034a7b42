-- ===== src/Arbor/Deadline.antt =====
-- src/activations/arbor/storage.rs: a tree that no one holds can be claimed for seven days.
use mathlib.Core.Option
use mneme_substrate.Base.{ℕ, Option, some, ◌≡◌}
use mneme_substrate.Arbor.Types.{TreeRow, scheduled_delete}

-- The row of a tree that is scheduled at a time.
abbrev IsScheduledAt : ℕ → Option TreeRow → Type 0
IsScheduledAt at o =
    (t : TreeRow) × (o ≡ some t)
    × (t.state ≡ scheduled_delete)
    × (t.scheduled_deletion_at ≡ some at)
