-- ===== src/Text/Equality.antt =====
-- Equality of texts.
use tenantkit.Prelude.{
  ◌≡◌, ◌↔◌, refl, true, [], ◌∷◌, arith, false, ◌≢◌, subst, Bool-cases, inl, inr,
}
use tenantkit.Text.{Bytes, bytes_eq}

pub bytes_eq_refl : (s : Bytes) → bytes_eq s s ≡ true
unfolding bytes_eq
bytes_eq_refl [] = refl
bytes_eq_refl (a ∷ s) = ground (arith, bytes_eq_refl s)

pub eq_of_bytes_eq : (s t : Bytes) → bytes_eq s t ≡ true → s ≡ t
unfolding bytes_eq
eq_of_bytes_eq [] [] h = refl
eq_of_bytes_eq [] (b ∷ t) h = cc
eq_of_bytes_eq (a ∷ s) [] h = cc
eq_of_bytes_eq (a ∷ s) (b ∷ t) h = ground (arith, eq_of_bytes_eq s t)

pub bytes_eq_iff : (s t : Bytes) → (bytes_eq s t ≡ true) ↔ (s ≡ t)
bytes_eq_iff s t = (eq_of_bytes_eq s t, λ e. rw (← e) (bytes_eq_refl s))

-- A test that has failed.
pub ne_of_bytes_eq : (s t : Bytes) → bytes_eq s t ≡ false → s ≢ t
ne_of_bytes_eq s t h e = absurd (
    let h' : bytes_eq t t ≡ false = subst (λ (x : Bytes). bytes_eq x t ≡ false) e h in
    let h'' = bytes_eq_refl t in cc)

pub bytes_eq-false : (s t : Bytes) → s ≢ t → bytes_eq s t ≡ false
bytes_eq-false s t h = elim (Bool-cases (bytes_eq s t)) [
  | inl e ↦ absurd (h (eq_of_bytes_eq s t e))
  | inr e ↦ e
]
