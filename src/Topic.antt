-- ===== src/Topic.antt =====
-- src/aqua/connection/retain_store.rs, `RetainStore::is_match`: a topic filter against a topic.
-- `TopicManager::is_match` of examples/broker.rs is the same text.
pub mod Matching
use aqua.Base.{
  ℕ, zero, suc, ◌+◌, ◌-◌, Bool, true, false, ◌&&◌, List, [], ◌∷◌, Option, none, some, ◌==◌, leb,
  ltb, if◌then◌else◌, length, get_elem?,
}
use aqua.Bytes.{Bytes}

-- `==` on strings
unfoldable pub bytes_eq : Bytes → Bytes → Bool
bytes_eq [] [] = true
bytes_eq [] (y ∷ ys) = false
bytes_eq (x ∷ xs) [] = false
bytes_eq (x ∷ xs) (y ∷ ys) = x == y && bytes_eq xs ys

abbrev pub hash : Bytes
hash = 0x23 ∷ []

abbrev pub plus : Bytes
plus = 0x2b ∷ []

abbrev pub cons_head : ℕ → List Bytes → List Bytes
cons_head b [] = (b ∷ []) ∷ []
cons_head b (s ∷ ss) = (b ∷ s) ∷ ss

-- `split('/').collect()`: one segment more than there are slashes.
unfoldable pub split : Bytes → List Bytes
split [] = [] ∷ []
split (b ∷ bs) = let rest = split bs in if b == 0x2f then [] ∷ rest else cons_head b rest

abbrev pub equals_at : Bytes → List Bytes → ℕ → Bool
equals_at seg ts i = elim (get_elem? ts i) [ none ↦ false | some t ↦ bytes_eq seg t ]

-- `while filter_index < filter_segment.len()`: each round that goes on adds one to `filter_index`, so
-- the rounds left are `filter_segment.len() - filter_index`.
unfoldable pub match_loop : ℕ → List Bytes → List Bytes → ℕ → ℕ → Bool
match_loop zero fs ts filter_index topic_index = topic_index == length ts
match_loop (suc rounds) fs ts filter_index topic_index =
    let more = match_loop rounds fs ts (filter_index + 1) (topic_index + 1) in
    elim (get_elem? fs filter_index) [
      | none ↦ false
      | some seg ↦
          if bytes_eq seg hash
          then filter_index == length fs - 1
          else if bytes_eq seg plus
          then (if leb (length ts) topic_index then false else more)
          else if ltb topic_index (length ts) && equals_at seg ts topic_index
          then more
          else false
    ]

unfoldable pub is_match : Bytes → Bytes → Bool
unfolding match_loop split bytes_eq
is_match topic_filter topic =
    match_loop (length (split topic_filter)) (split topic_filter) (split topic) 0 0
