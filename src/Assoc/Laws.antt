-- ===== src/Assoc/Laws.antt =====
-- What a read sees after a write to the map.
use tenantkit.Prelude.{
  ◌+◌, ◌≤◌, ◌≡◌, ◌≢◌, refl, List, [], ◌∷◌, none, some, if◌then◌else◌, arith, length, All,
  Bool-cases, inl, inr,
}
use tenantkit.Assoc.{Eq, lookup, insert, delete}

module _ {ℓ κ} {K : Type ℓ} {V : Type κ} ⦃e : Eq K⦄ where
  pub lookup-insert_self : (k : K) (v : V) (m : List (K × V)) → lookup k (insert k v m) ≡ some v
  unfolding lookup insert
  lookup-insert_self k v [] = rw (e.beq_iff k k).1 refl
  lookup-insert_self k v ((j, w) ∷ m) = ground (arith, lookup-insert_self k v m, e.beq_iff k k)

  pub lookup-insert :
      (k j : K) (v : V) (m : List (K × V))
      → lookup j (insert k v m) ≡ (if e.beq k j then some v else lookup j m)
  unfolding lookup insert
  lookup-insert k j v [] = refl
  lookup-insert k j v ((i, w) ∷ m) =
      ground (arith, e.beq_iff k j, e.beq_iff i k, e.beq_iff i j, lookup-insert k j v m)

  pub lookup-delete_self : (k : K) (m : List (K × V)) → lookup k (delete k m) ≡ none
  unfolding lookup delete
  lookup-delete_self k [] = refl
  lookup-delete_self k ((j, w) ∷ m) = ground (arith, lookup-delete_self k m)

  pub lookup-delete_ne : (k j : K) (m : List (K × V)) → j ≢ k → lookup j (delete k m) ≡ lookup j m
  unfolding lookup delete
  lookup-delete_ne k j [] h = refl
  lookup-delete_ne k j ((i, w) ∷ m) h =
      ground (arith, lookup-delete_ne k j m, e.beq_iff i k, e.beq_iff i j)

  pub length-insert-le : (k : K) (v : V) (m : List (K × V)) → length (insert k v m) ≤ length m + 1
  unfolding insert
  length-insert-le k v [] = omega arith
  length-insert-le k v ((j, w) ∷ m) = ground (arith, length-insert-le k v m)

  pub All-lookup {μ} :
      (P : K × V → Type μ) (k : K) (v : V) (m : List (K × V))
      → All P m
      → lookup k m ≡ some v
      → P (k, v)
  unfolding lookup
  All-lookup P k v [] h q = absurd (cc)
  All-lookup P k v ((j, w) ∷ m) (p, h) q = elim (Bool-cases (e.beq j k)) [
    | inl same ↦
        let here : j ≡ k = (e.beq_iff j k).0 same in
        let value : w ≡ v = ground arith in rw (← here, ← value) p
    | inr other ↦ All-lookup P k v m h (rw other at q)
  ]

  pub All-insert {μ} :
      (P : K × V → Type μ) (k : K) (v : V) (m : List (K × V))
      → All P m
      → P (k, v)
      → All P (insert k v m)
  unfolding insert
  All-insert P k v [] h p = (p, tt)
  All-insert P k v ((j, w) ∷ m) (q, h) p = elim (Bool-cases (e.beq j k)) [
    | inl same ↦ rw same ((let here : j ≡ k = (e.beq_iff j k).0 same in rw here p), h)
    | inr other ↦ rw other (q, All-insert P k v m h p)
  ]
