-- ===== src/Loopback/Examples.antt =====
-- A parent session that waits, and a tool of its child.
use mathlib.Core.List.{Memᴰ}
use mneme_substrate.Base.{ℕ, true, false, none, some, List, [], ◌∷◌, ◌≡◌, refl, inr}
use mneme_substrate.Base.Json.{Value, null, string, object, field, end}
use mneme_substrate.Base.Text.{get}
use mneme_substrate.Loopback.Storage.{LoopbackStorage, new_approval, create_approval, list_pending}
use mneme_substrate.Loopback.Methods.{
  Call, permit, respond, wait, parent, allow, permit_round, handle, serve,
}
use mneme_substrate.Loopback.Approved.{is_allow, no_allow_without_approval}
use mneme_substrate.Loopback.Seen.{IsLinked, with_permit, create_approval-IsSeen}
use mneme_substrate.Loopback.Linked.{serve-IsLinked}

abbrev empty : LoopbackStorage
empty = record {
  approvals = [];
  tool_sessions = [];
  notifiers = [];
  parents = [];
  children = [];
  now = 0;
}

empty-IsLinked : IsLinked empty
empty-IsLinked child of eq = absurd (cc eq)

abbrev family : List (ℕ × Call)
family = (1, parent "C" "P") ∷ (2, wait "P") ∷ []

-- The query string of the connection names the session.
abbrev connection : Value
connection = object (field "query.session_id" (string "C") end)

abbrev asked : List (ℕ × Call)
asked =
    (3, permit 7 (some connection) none "Bash" "t1" null)
    ∷ (4, permit 8 (some connection) none "Bash" "t2" null)
    ∷ (5, respond 8 true none)
    ∷ (6, respond 7 false none)
    ∷ []

serve-IsLinked_example : IsLinked (serve family empty)
serve-IsLinked_example = serve-IsLinked family empty empty-IsLinked

create_approval-IsSeen_example :
    Memᴰ
      (new_approval 7 "C" "Bash" "t1" null 2)
      (list_pending (some "P") (create_approval 7 "C" "Bash" "t1" null (serve family empty)).1)
    × (get "P" (create_approval 7 "C" "Bash" "t1" null (serve family empty)).1.notifiers
        ≡ with_permit (some false))
unfolding serve handle
create_approval-IsSeen_example =
    create_approval-IsSeen 7 "C" "Bash" "t1" null "P" (serve family empty) refl
      (serve-IsLinked family empty empty-IsLinked) (inr refl)

no_allow_without_approval_example :
    is_allow (permit_round 3 7 null (serve asked (serve family empty))).0 ≡ false
unfolding serve handle
no_allow_without_approval_example =
    no_allow_without_approval 7 asked (serve family empty) 3 null refl
      (refl, (refl, (refl, (refl, tt))))

-- The approved one is allowed.
allowed : (permit_round 3 8 null (serve asked (serve family empty))).0 ≡ some (allow null)
unfolding permit_round serve handle
allowed = refl
