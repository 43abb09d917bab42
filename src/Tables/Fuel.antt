-- ===== src/Tables/Fuel.antt =====
-- The loop over the joins ends.
use mathlib.Core.Option
use tenantkit.Prelude.{
  ℕ, zero, suc, ◌+◌, ◌≤◌, ◌<◌, ◌≡◌, refl, ap, List, [], ◌∷◌, Option, none, some, arith, All, length,
  drop, length-drop, ltb, Option-cases, inl, inr, Bool-cases,
}
use tenantkit.Text.{Bytes, index}
use tenantkit.Tables.{TableRef, join_round, join_keywords, next_join, add_table, joined_tables}

-- A keyword that is found stands below the bound, and is not empty.
abbrev IsBelow : ℕ → ℕ × Option Bytes → Type 0
IsBelow bound (stop, none) = stop ≤ bound
IsBelow bound (stop, some keyword) = (stop < bound) × (0 < length keyword)

next_join-IsBelow :
    (bound : ℕ) (upper : Bytes) (ks : List Bytes) (stop : ℕ) (found : Option Bytes)
    → All (λ k. 0 < length k) ks
    → IsBelow bound (stop, found)
    → IsBelow bound (next_join upper ks (stop, found))
unfolding next_join
next_join-IsBelow bound upper [] stop found h b = b
next_join-IsBelow bound upper (k ∷ ks) stop found (p, h) b = elim (Option-cases (index upper k)) [
  | inl e ↦ rw e (next_join-IsBelow bound upper ks stop found h b)
  | inr (pos, e) ↦ elim (Bool-cases (ltb pos stop)) [
    | inl t ↦
        rw (e, t)
          (next_join-IsBelow bound upper ks pos (some k) h (nearer found b (ground arith), p))
    | inr t ↦ rw (e, t) (next_join-IsBelow bound upper ks stop found h b)
  ]
]
  where
    nearer :
        (found : Option Bytes) {pos : ℕ} → IsBelow bound (stop, found) → pos < stop → pos < bound
    nearer none b l = omega arith
    nearer (some k) b l = omega arith

module _ (f g : Bytes → Bytes → Option (List TableRef)) where
  -- Both give the same tables.
  abbrev Agree : Bytes → Bytes → Type 0
  Agree r u = (ts : List TableRef) × (f r u ≡ some ts) × (g r u ≡ some ts)

  join_round-Agree :
      (remaining upper : Bytes) (best : ℕ × Option Bytes)
      → IsBelow (length remaining) best
      → ((r u : Bytes) → length r < length remaining → Agree r u)
      → (ts : List TableRef) × (join_round f remaining upper best ≡ some ts)
        × (join_round g remaining upper best ≡ some ts)
  unfolding join_round
  join_round-Agree remaining upper (pos, none) b h = ([], refl, refl)
  join_round-Agree remaining upper (pos, some keyword) b h =
      let (ts, e, k) = h _ _ (shorter _) in
      (_, ap (Option.map (add_table _)) e, ap (Option.map (add_table _)) k)
    where
      shorter :
          (start : ℕ)
          → length (drop start (drop (pos + length keyword) remaining)) < length remaining
      shorter start = omega (
        arith,
        length-drop start (drop (pos + length keyword) remaining),
        length-drop (pos + length keyword) remaining,
      )

-- The loop over the joins stops by itself: with any two amounts of fuel above the length of its
-- text it comes to an end before the fuel is used up, and with the same tables.
pub joined_tables-fuel :
    (f g : ℕ) (remaining upper : Bytes)
    → length remaining < f
    → length remaining < g
    → (ts : List TableRef) × (joined_tables f remaining upper ≡ some ts)
      × (joined_tables g remaining upper ≡ some ts)
unfolding joined_tables
joined_tables-fuel zero g remaining upper h k = absurd (omega arith)
joined_tables-fuel (suc f) zero remaining upper h k = absurd (omega arith)
joined_tables-fuel (suc f) (suc g) remaining upper h k =
    join_round-Agree (joined_tables f) (joined_tables g) remaining upper _
      (next_join-IsBelow (length remaining) upper join_keywords (length remaining) none
        (omega arith) (omega arith))
      (λ r u l. joined_tables-fuel f g r u (omega arith) (omega arith))
