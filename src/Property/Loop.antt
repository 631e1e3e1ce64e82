-- ===== src/Property/Loop.antt =====
-- The loop over the properties of a header. The source writes it out in each decoder: it ends at
-- `end_pos`, refuses to pass it, and otherwise reads an identifier and goes into the arm for it.
use aqua.Base.{
  ℕ, zero, suc, ◌+◌, ◌-◌, ◌≤◌, ◌<◌, ◌≡◌, ltb, ◌==◌, Bool-cases, inl, inr, if◌then◌else◌, arith,
}
use aqua.Outcome.{
  Outcome, ok, err, out_of_fuel, invalid_format, ◌>>=◌, Ends, Ends-ok, Ends-err, Ends-bind_ok,
}
use aqua.Bytes.{Bytes, index}
use aqua.Bytes.Ends.{index-Ends}

-- `arm id pos s` handles identifier `id` with its value at `pos`.
unfoldable pub property_loop {ℓ} :
    {S : Type ℓ} → (ℕ → ℕ → S → Outcome (S × ℕ)) → ℕ → Bytes → ℕ → ℕ → S → Outcome (S × ℕ)
property_loop arm zero buf end_pos next_pos s = out_of_fuel
property_loop arm (suc fuel) buf end_pos next_pos s =
    let more = do
      id ← index buf next_pos
      (s', pos) ← arm id (next_pos + 1) s
      property_loop arm fuel buf end_pos pos s'
    in if next_pos == end_pos
      then ok (s, next_pos)
      else if ltb end_pos next_pos
      then err invalid_format
      else more

-- The properties of a block of `property_length` bytes at `next_pos`. Each round takes at least one
-- byte, so that one round more than there are bytes is enough.
unfoldable pub property_block {ℓ} :
    {S : Type ℓ} → (ℕ → ℕ → S → Outcome (S × ℕ)) → Bytes → ℕ → ℕ → S → Outcome (S × ℕ)
property_block arm buf property_length next_pos s =
    property_loop arm (property_length + 1) buf (next_pos + property_length) next_pos s

module _ {ℓ} {S : Type ℓ} (arm : ℕ → ℕ → S → Outcome (S × ℕ)) where
  module _ (arm_ends : (id pos : ℕ) (s : S) → Ends (arm id pos s))
      (arm_advances : (id pos : ℕ) (s s' : S) (next : ℕ)
        → arm id pos s ≡ ok (s', next)
        → pos ≤ next) where
    property_loop-Ends :
        (fuel : ℕ) (buf : Bytes) (end_pos next_pos : ℕ) (s : S)
        → end_pos - next_pos < fuel
        → Ends (property_loop arm fuel buf end_pos next_pos s)
    unfolding property_loop
    property_loop-Ends zero buf end_pos next_pos s h = absurd (omega arith)
    property_loop-Ends (suc fuel) buf end_pos next_pos s h =
        elim (Bool-cases (next_pos == end_pos)) [
          | inl done ↦ rw done (Ends-ok _)
          | inr more ↦ elim (Bool-cases (ltb end_pos next_pos)) [
            | inl past ↦ rw (more, past) (Ends-err _)
            | inr before ↦
                rw (more, before)
                  (Ends-bind_ok (index buf next_pos) _ (index-Ends buf next_pos) λ id _.
                    Ends-bind_ok (arm id (next_pos + 1) s) _ (arm_ends id (next_pos + 1) s) λ a e.
                      property_loop-Ends fuel buf end_pos a.1 a.0
                        (ground (arith, arm_advances id (next_pos + 1) s a.0 a.1 e)))
          ]
        ]

    -- The fuel of a block is enough whatever the buffer holds.
    pub property_block-Ends :
        (buf : Bytes) (property_length next_pos : ℕ) (s : S)
        → Ends (property_block arm buf property_length next_pos s)
    unfolding property_block
    property_block-Ends buf len next_pos s =
        property_loop-Ends (len + 1) buf (next_pos + len) next_pos s (omega arith)

  property_loop-end :
      (fuel : ℕ) (buf : Bytes) (end_pos next_pos : ℕ) (s s' : S) (next : ℕ)
      → property_loop arm fuel buf end_pos next_pos s ≡ ok (s', next)
      → next ≡ end_pos
  unfolding property_loop
  property_loop-end zero buf end_pos next_pos s s' next h = cc
  property_loop-end (suc fuel) buf end_pos next_pos s s' next h =
      grind (arith, property_loop-end fuel buf end_pos)

  -- A block that is read ends exactly where its length says.
  pub property_block-end :
      (buf : Bytes) (property_length next_pos : ℕ) (s s' : S) (next : ℕ)
      → property_block arm buf property_length next_pos s ≡ ok (s', next)
      → next ≡ next_pos + property_length
  unfolding property_block
  property_block-end buf len next_pos s s' next h =
      property_loop-end (len + 1) buf (next_pos + len) next_pos s s' next h
