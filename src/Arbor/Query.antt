-- ===== src/Arbor/Query.antt =====
-- src/activations/arbor/storage.rs: the trees whose metadata match a filter. An object is its keys,
-- each once, with their values; the equality of objects does not look at the order of the keys.
use mneme_substrate.Base.{ℕ, Bool, true, false, ◌&&◌, ◌+◌, none, some, List, map, filter, ◌==◌}
use mneme_substrate.Base.Json.{
  Number, Value, Items, Fields, find_field, pos_int, neg_int, float, null, bool, number, string,
  array, object, nil, cons, end, field,
}
use mneme_substrate.Base.Text.{same_text}
use mneme_substrate.Arbor.Types.{TreeId, TreeRow, ArborStorage, is_active}

abbrev pub same_bool : Bool → Bool → Bool
same_bool true b = b
same_bool false true = false
same_bool false false = true

abbrev pub same_number : Number → Number → Bool
same_number (pos_int m) (pos_int n) = m == n
same_number (neg_int m) (neg_int n) = m == n
same_number (float s) (float t) = same_text s t
same_number _ _ = false

abbrev pub count_fields : Fields → ℕ
count_fields end = 0
count_fields (field _ _ fs) = 1 + count_fields fs

-- `a == b` on `Value`
unfoldable mutual
  pub same_value : Value → Value → Bool
  same_value null null = true
  same_value (bool a) (bool b) = same_bool a b
  same_value (number a) (number b) = same_number a b
  same_value (string a) (string b) = same_text a b
  same_value (array as_) (array bs) = same_items as_ bs
  same_value (object fs) (object gs) = (count_fields fs == count_fields gs) && same_fields fs gs
  same_value _ _ = false

  pub same_items : Items → Items → Bool
  same_items nil nil = true
  same_items (cons a as_) (cons b bs) = same_value a b && same_items as_ bs
  same_items _ _ = false

  -- Each field of the first is one of the second.
  pub same_fields : Fields → Fields → Bool
  same_fields end gs = true
  same_fields (field k a fs) gs =
      elim (find_field k gs) [ none ↦ false | some b ↦ same_value a b ] && same_fields fs gs

unfoldable mutual
  unfolding same_value same_items same_fields

  pub metadata_matches : Value → Value → Bool
  metadata_matches (object fs) (object gs) = all_match fs gs
  metadata_matches filter_val meta_val = same_value filter_val meta_val

  pub all_match : Fields → Fields → Bool
  all_match end gs = true
  all_match (field k v fs) gs =
      elim (find_field k gs) [ none ↦ false | some w ↦ metadata_matches v w ] && all_match fs gs

abbrev pub row_matches : Value → TreeRow → Bool
unfolding metadata_matches all_match
row_matches filter_val t =
    is_active t.state
    && elim t.metadata [ none ↦ false | some metadata ↦ metadata_matches filter_val metadata ]

unfoldable pub tree_query_by_metadata : Value → ArborStorage → List TreeId
tree_query_by_metadata filter_val s =
    map (λ (t : TreeRow). t.id) (filter (row_matches filter_val) s.trees)
