-- ===== src/Assoc/Keyed.antt =====
-- Maps with one entry for a key, and what is left of them after a loop that deletes.
use tenantkit.Prelude.{
  ◌≡◌, refl, List, [], ◌∷◌, Bool, Option, none, some, if◌then◌else◌, arith, Bool-cases, inl, inr,
  All,
}
use tenantkit.Assoc.{Eq, lookup, insert, delete_where}
use tenantkit.Assoc.Laws.{lookup-insert}

-- `delete_where` on what a read gives.
abbrev pub unless {ℓ} : {V : Type ℓ} → (V → Bool) → Option V → Option V
unless p none = none
unless p (some v) = if p v then none else some v

module _ {ℓ κ} {K : Type ℓ} {V : Type κ} ⦃e : Eq K⦄ where
  abbrev pub IsKeyed : List (K × V) → Type κ
  IsKeyed [] = Unit
  IsKeyed ((j, w) ∷ m) = (lookup j m ≡ none) × IsKeyed m

  pub insert-IsKeyed : (k : K) (v : V) (m : List (K × V)) → IsKeyed m → IsKeyed (insert k v m)
  unfolding insert lookup
  insert-IsKeyed k v [] h = (refl, tt)
  insert-IsKeyed k v ((j, w) ∷ m) (n, h) = elim (Bool-cases (e.beq j k)) [
    | inl same ↦ rw same (n, h)
    | inr other ↦ rw other (
      ground (arith, lookup-insert k j v m, e.beq_iff k j, e.beq_iff j k),
      insert-IsKeyed k v m h,
    )
  ]

  pub lookup-delete_where :
      (k : K) (p : V → Bool) (m : List (K × V))
      → IsKeyed m
      → lookup k (delete_where p m) ≡ unless p (lookup k m)
  unfolding lookup delete_where
  lookup-delete_where k p [] h = refl
  lookup-delete_where k p ((j, w) ∷ m) (n, h) = elim (Bool-cases (e.beq j k)) [
    | inl same ↦
        let here : j ≡ k = (e.beq_iff j k).0 same in
        let gone : lookup k m ≡ none = rw here at n in
        elim (Bool-cases (p w)) [
          | inl q ↦ rw (same, q, lookup-delete_where k p m h, gone) refl
          | inr q ↦ rw (same, q, same) refl
        ]
    | inr other ↦ elim (Bool-cases (p w)) [
      | inl q ↦ rw (other, q) (lookup-delete_where k p m h)
      | inr q ↦ rw (q, other) (lookup-delete_where k p m h)
    ]
  ]

  pub delete_where-IsKeyed :
      (p : V → Bool) (m : List (K × V)) → IsKeyed m → IsKeyed (delete_where p m)
  unfolding delete_where
  delete_where-IsKeyed p [] h = tt
  delete_where-IsKeyed p ((j, w) ∷ m) (n, h) = elim (Bool-cases (p w)) [
    | inl q ↦ rw q (delete_where-IsKeyed p m h)
    | inr q ↦ rw q (rw (lookup-delete_where j p m h, n) refl, delete_where-IsKeyed p m h)
  ]

  pub delete_where-All {μ} :
      (P : K × V → Type μ) (p : V → Bool) (m : List (K × V)) → All P m → All P (delete_where p m)
  unfolding delete_where
  delete_where-All P p [] h = tt
  delete_where-All P p ((j, w) ∷ m) (q, h) = elim (Bool-cases (p w)) [
    | inl r ↦ rw r (delete_where-All P p m h)
    | inr r ↦ rw r (q, delete_where-All P p m h)
  ]
