-- ===== src/Assoc.antt =====
-- Go maps as association lists, over keys with a Boolean equality.
pub mod Keyed
pub mod Laws
use tenantkit.Prelude.{
  ℕ, Bool, true, false, ◌≡◌, ◌↔◌, List, [], ◌∷◌, Option, none, some, if◌then◌else◌, ◌==◌, ==_iff,
  map,
}
use tenantkit.Text.{Bytes, bytes_eq}
use tenantkit.Text.Equality.{bytes_eq_iff}

pub record Eq {ℓ} (K : Type ℓ) : Type ℓ where
  pub beq : K → K → Bool
  pub beq_iff : (a b : K) → (beq a b ≡ true) ↔ (a ≡ b)

instance abbrev pub nat_eq : Eq ℕ
nat_eq = record { beq = λ a b. a == b; beq_iff = ==_iff }

instance abbrev pub text_eq : Eq Bytes
text_eq = record { beq = bytes_eq; beq_iff = bytes_eq_iff }

module _ {ℓ κ} {K : Type ℓ} {V : Type κ} ⦃e : Eq K⦄ where
  -- `v, ok := m[k]`
  unfoldable pub lookup : K → List (K × V) → Option V
  lookup k [] = none
  lookup k ((j, v) ∷ m) = if e.beq j k then some v else lookup k m

  -- `m[k] = v`
  unfoldable pub insert : K → V → List (K × V) → List (K × V)
  insert k v [] = (k, v) ∷ []
  insert k v ((j, w) ∷ m) = if e.beq j k then (j, v) ∷ m else (j, w) ∷ insert k v m

  -- `delete(m, k)`
  unfoldable pub delete : K → List (K × V) → List (K × V)
  delete k [] = []
  delete k ((j, w) ∷ m) = if e.beq j k then delete k m else (j, w) ∷ delete k m

-- A loop over a map that deletes the entries which pass a test.
unfoldable pub delete_where {ℓ κ} :
    {K : Type ℓ} {V : Type κ} → (V → Bool) → List (K × V) → List (K × V)
delete_where p [] = []
delete_where p ((j, w) ∷ m) = if p w then delete_where p m else (j, w) ∷ delete_where p m
