-- ===== src/Bytes/Ends.antt =====
-- The primitives on buffers use no fuel.
use aqua.Base.{ℕ, [], ◌∷◌}
use aqua.Outcome.{Outcome, Ends, Ends-ok, Ends-err, ends_rules}
use aqua.Bytes.{
  Bytes, index, get_or_invalid, slice, u16_from_slice, u32_from_slice, byte_pair_at, advance,
  checked_sub,
}

pub index-Ends : (buf : Bytes) (pos : ℕ) → Ends (index buf pos)
unfolding index
index-Ends buf pos = search ends_rules

pub get_or_invalid-Ends : (buf : Bytes) (pos : ℕ) → Ends (get_or_invalid buf pos)
unfolding get_or_invalid
get_or_invalid-Ends buf pos = search ends_rules

pub slice-Ends : (buf : Bytes) (from to : ℕ) → Ends (slice buf from to)
unfolding slice
slice-Ends buf from to = search ends_rules

pub advance-Ends : (buf : Bytes) (n : ℕ) → Ends (advance buf n)
unfolding advance
advance-Ends buf n = search ends_rules

pub checked_sub-Ends : (a b : ℕ) → Ends (checked_sub a b)
unfolding checked_sub
checked_sub-Ends a b = search ends_rules

pub byte_pair_at-Ends : (buf : Bytes) (pos : ℕ) → Ends (byte_pair_at buf pos)
unfolding byte_pair_at
byte_pair_at-Ends buf pos = search (ends_rules, index-Ends)

pub u16_from_slice-Ends : (b : Bytes) → Ends (u16_from_slice b)
unfolding u16_from_slice
u16_from_slice-Ends [] = Ends-err _
u16_from_slice-Ends (a ∷ []) = Ends-err _
u16_from_slice-Ends (a ∷ b ∷ []) = Ends-ok _
u16_from_slice-Ends (a ∷ b ∷ c ∷ r) = Ends-err _

pub u32_from_slice-Ends : (b : Bytes) → Ends (u32_from_slice b)
unfolding u32_from_slice
u32_from_slice-Ends [] = Ends-err _
u32_from_slice-Ends (a ∷ []) = Ends-err _
u32_from_slice-Ends (a ∷ b ∷ []) = Ends-err _
u32_from_slice-Ends (a ∷ b ∷ c ∷ []) = Ends-err _
u32_from_slice-Ends (a ∷ b ∷ c ∷ d ∷ []) = Ends-ok _
u32_from_slice-Ends (a ∷ b ∷ c ∷ d ∷ e ∷ r) = Ends-err _

pub ruleset byte_ends = (
  ends_rules, index-Ends, get_or_invalid-Ends, slice-Ends, advance-Ends, checked_sub-Ends,
  byte_pair_at-Ends, u16_from_slice-Ends, u32_from_slice-Ends,
)
