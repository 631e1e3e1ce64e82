-- ===== src/Property/Reads.antt =====
-- How the property loop reads back a block that was written one property after the other.
use aqua.Base.{
  ℕ, zero, suc, ◌+◌, ◌-◌, ◌≤◌, ◌<◌, ◌≡◌, sym, ap, ◌∙◌, false, ltb, ◌==◌, ◌∷◌, ◌++◌, length, arith,
  subst,
}
use aqua.Outcome.{Outcome, ok, >>=-ok}
use aqua.Bytes.{Bytes}
use aqua.Bytes.Cursor.{At, At-index}
use aqua.Property.Loop.{property_loop, property_block}

module _ {S : Type 0} (arm : ℕ → ℕ → S → Outcome (S × ℕ)) (buf : Bytes) (end_pos : ℕ) where
  -- The loop comes from `pos` and `s` to `r`, on every fuel that is enough.
  pub record Gives (pos : ℕ) (s : S) (r : Outcome (S × ℕ)) : Type 0 where
    pub at : (fuel : ℕ) → end_pos - pos < fuel → property_loop arm fuel buf end_pos pos s ≡ r

  pub Gives-end : (pos : ℕ) (s : S) → pos ≡ end_pos → Gives pos s (ok (s, end_pos))
  unfolding property_loop
  Gives-end pos s e = record { at = go }
    where
      go :
          (fuel : ℕ)
          → end_pos - pos < fuel
          → property_loop arm fuel buf end_pos pos s ≡ ok (s, end_pos)
      go zero h = absurd (omega arith)
      go (suc fuel) h = ground (arith, e)

  -- One round, where the arm reads a property.
  pub Gives-next :
      (pos : ℕ) (id : ℕ) (val rest : Bytes) (s s' : S) (r : Outcome (S × ℕ))
      → At buf pos (id ∷ (val ++ rest))
      → arm id (pos + 1) s ≡ ok (s', (pos + 1) + length val)
      → pos + suc (length val) ≤ end_pos
      → Gives (pos + suc (length val)) s' r
      → Gives pos s r
  unfolding property_loop
  Gives-next pos id val rest s s' r here reads within behind = record { at = go }
    where
      go : (fuel : ℕ) → end_pos - pos < fuel → property_loop arm fuel buf end_pos pos s ≡ r
      go zero h = absurd (omega arith)
      go (suc fuel) h =
          let more : (pos == end_pos) ≡ false = ground (arith, within) in
          let before : ltb end_pos pos ≡ false = ground (arith, within) in
          let next : (pos + 1) + length val ≡ pos + suc (length val) = omega arith in
          rw (more, before)
            (>>=-ok _ _ (At-index id (val ++ rest) here) (
              >>=-ok _ _ (reads ∙ ap (λ n. ok (s', n)) next)
                (behind.at fuel (omega (arith, within)))))

  -- A block that is read from its start to its end is what `property_block` reads.
  pub Gives-block :
      (pos len : ℕ) (s : S) (r : Outcome (S × ℕ))
      → pos + len ≡ end_pos
      → Gives pos s r
      → property_block arm buf len pos s ≡ r
  unfolding property_block
  Gives-block pos len s r e g =
      subst (λ n. property_loop arm (len + 1) buf n pos s ≡ r) (sym e)
        (g.at (len + 1) (omega arith))
