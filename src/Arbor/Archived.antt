-- ===== src/Arbor/Archived.antt =====
-- src/activations/arbor: what is archived stays as it is.
use mathlib.Core.Option
use mneme_substrate.Base.{true, Option, some, ◌≡◌}
use mneme_substrate.Arbor.Types.{TreeId, TreeRow, ArborStorage, is_archived}
use mneme_substrate.Arbor.Trees.{find_tree}

module _ (id : TreeId) (t : TreeRow) (old : is_archived t.state ≡ true) where
  abbrev Has : ArborStorage → Type 0
  Has s = find_tree id s.trees ≡ some t
