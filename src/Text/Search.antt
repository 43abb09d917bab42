-- ===== src/Text/Search.antt =====
-- Searching: an occurrence cuts the text in three, and an occurrence that is there is found.
use native.Mathlib.Nat.{zero-add, suc-add}
use tenantkit.Prelude.{
  ℕ, zero, suc, ◌+◌, ◌≤◌, ◌≡◌, refl, ap, true, false, [], ◌∷◌, ◌++◌, some, arith, length, drop,
  take, Bool-cases, inl, inr,
}
use tenantkit.Text.{Bytes, has_prefix, index, contains, count}

pub has_prefix-append : (t s : Bytes) → has_prefix (t ++ s) t ≡ true
unfolding has_prefix
has_prefix-append [] s = refl
has_prefix-append (b ∷ t) s = ground (arith, has_prefix-append t s)

pub has_prefix-split : (s t : Bytes) → has_prefix s t ≡ true → s ≡ t ++ drop (length t) s
unfolding has_prefix
has_prefix-split s [] h = refl
has_prefix-split [] (b ∷ t) h = cc
has_prefix-split (a ∷ s) (b ∷ t) h = ground (arith, has_prefix-split s t)

pub index-zero : (s t : Bytes) → index s t ≡ some 0 → has_prefix s t ≡ true
unfolding index
index-zero [] t h = elim (Bool-cases (has_prefix [] t)) [ inl e ↦ e | inr e ↦ ground arith ]
index-zero (c ∷ s) t h = elim (Bool-cases (has_prefix (c ∷ s) t)) [
  | inl e ↦ e
  | inr e ↦ ground arith
]

pub index-suc : (c : ℕ) (s t : Bytes) (p : ℕ) → index (c ∷ s) t ≡ some (suc p) → index s t ≡ some p
unfolding index
index-suc c s t p h = ground arith

-- The text is what stands before the occurrence, the occurrence, and the rest.
pub index-split :
    (s t : Bytes) (p : ℕ) → index s t ≡ some p → s ≡ take p s ++ (t ++ drop (p + length t) s)
index-split s t zero h = rw zero-add (has_prefix-split s t (index-zero s t h))
index-split [] t (suc p) h = absurd (unfold index in ground arith)
index-split (c ∷ s) t (suc p) h = rw suc-add (ap (◌∷◌ c) (index-split s t p (index-suc c s t p h)))

pub has_prefix-le : (s t : Bytes) → has_prefix s t ≡ true → length t ≤ length s
unfolding has_prefix
has_prefix-le s [] h = omega arith
has_prefix-le [] (b ∷ t) h = cc
has_prefix-le (a ∷ s) (b ∷ t) h = ground (arith, has_prefix-le s t)

-- An occurrence ends inside the text.
pub index-le : (s t : Bytes) (p : ℕ) → index s t ≡ some p → p + length t ≤ length s
index-le s t zero h = omega (arith, has_prefix-le s t (index-zero s t h))
index-le [] t (suc p) h = absurd (unfold index in ground arith)
index-le (c ∷ s) t (suc p) h = omega (arith, index-le s t p (index-suc c s t p h))

index_hit : (s t : Bytes) → has_prefix s t ≡ true → index s t ≡ some 0
unfolding index
index_hit [] t h = rw h
index_hit (c ∷ s) t h = rw h

index_miss :
    (c : ℕ) (s t : Bytes) (p : ℕ)
    → has_prefix (c ∷ s) t ≡ false
    → index s t ≡ some p
    → index (c ∷ s) t ≡ some (suc p)
unfolding index
index_miss c s t p h e = rw (h, e)

-- What is there is found.
pub index-append : (s t u : Bytes) → (p : ℕ) × (index (s ++ (t ++ u)) t ≡ some p) × (p ≤ length s)
index-append [] t u = (0, index_hit (t ++ u) t (has_prefix-append t u), omega arith)
index-append (c ∷ s) t u = elim (Bool-cases (has_prefix (c ∷ (s ++ (t ++ u))) t)) [
  | inl e ↦ (0, index_hit _ t e, omega arith)
  | inr e ↦
      let (p, found, h) = index-append s t u in (suc p, index_miss c _ t p e found, omega arith)
]

pub contains-append : (s t u : Bytes) → contains (s ++ (t ++ u)) t ≡ true
unfolding contains
contains-append s t u = ground (arith, index-append s t u)

pub count-append : (b : ℕ) (s t : Bytes) → count b (s ++ t) ≡ count b s + count b t
unfolding count
count-append b [] t = omega arith
count-append b (c ∷ s) t = omega (arith, count-append b s t)
