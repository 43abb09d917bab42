-- ===== src/Redis/Quota/Keys.antt =====
-- Which tenants and quota types share a key in Redis.
use tenantkit.Prelude.{
  ℕ, ◌≡◌, refl, sym, ap, ◌∙◌, ◌≢◌, ◌↔◌, [], ◌∷◌, ◌++◌, arith, length, drop, All, drop-append_left,
}
use tenantkit.Domain.Laws.{IsIdByte}
use tenantkit.Redis.Quota.{Config, build_usage_key, build_limit_key}
use tenantkit.Text.{Bytes, codes}

-- The bytes of an id are no colons.
abbrev HasNoColon : Bytes → Type 0
HasNoColon = All (λ c. c ≢ b':')

no_colon : (s : Bytes) → All IsIdByte s → HasNoColon s
no_colon [] h = tt
no_colon (c ∷ s) (h, hs) = (λ e. absurd (ground (arith, h, e)), no_colon s hs)

cons-injective : (a b : ℕ) (s t : Bytes) → ◌≡◌ {A = Bytes} (a ∷ s) (b ∷ t) → (a ≡ b) × (s ≡ t)
cons-injective a b s t e = (cc, cc)

-- The text in front of the first colon is determined, and so is the rest.
colon-injective :
    (s t u v : Bytes)
    → HasNoColon s
    → HasNoColon t
    → s ++ (b':' ∷ u) ≡ t ++ (b':' ∷ v)
    → (s ≡ t) × (u ≡ v)
colon-injective [] [] u v h k e = (refl, (cons-injective _ _ u v e).1)
colon-injective [] (d ∷ t) u v h (k, ks) e = absurd (k (sym (cons-injective _ _ u _ e).0))
colon-injective (c ∷ s) [] u v (h, hs) k e = absurd (h (cons-injective _ _ _ v e).0)
colon-injective (c ∷ s) (d ∷ t) u v (h, hs) (k, ks) e =
    let (head, tail) = cons-injective c d _ _ e in
    let (same, rest) = colon-injective s t u v hs ks tail in (rw (head, same) refl, rest)

append-cancel : (p s t : Bytes) → p ++ s ≡ p ++ t → s ≡ t
append-cancel p s t e = sym (drop-append_left p s) ∙ (ap (drop (length p)) e ∙ drop-append_left p t)

module _ (config : Config) (t u p q : Bytes) (h : All IsIdByte t) (k : All IsIdByte u) where
  usage_key_iff : (build_usage_key config t p ≡ build_usage_key config u q) ↔ ((t ≡ u) × (p ≡ q))
  unfolding build_usage_key
  usage_key_iff = (
    λ e. colon-injective t u p q (no_colon t h) (no_colon u k) (append-cancel config.prefix _ _ e),
    λ e. rw (e.0, e.1) refl,
  )

  limit_key_iff : (build_limit_key config t p ≡ build_limit_key config u q) ↔ ((t ≡ u) × (p ≡ q))
  unfolding build_limit_key
  limit_key_iff = (
    λ e.
        colon-injective t u p q (no_colon t h) (no_colon u k)
          (append-cancel (codes "limit:") _ _ (append-cancel config.prefix _ _ e)),
    λ e. rw (e.0, e.1) refl,
  )

usage_key-limit_key :
    (config : Config) (t u p q : Bytes)
    → All IsIdByte t
    → (build_usage_key config t p ≡ build_limit_key config u q)
      ↔ ((t ≡ codes "limit") × (p ≡ u ++ (b':' ∷ q)))
unfolding build_usage_key build_limit_key
usage_key-limit_key config t u p q h = (
  λ e.
      colon-injective t (codes "limit") p (u ++ (b':' ∷ q)) (no_colon t h)
        (
          λ e. absurd (cc),
          (λ e. absurd (cc), (λ e. absurd (cc), (λ e. absurd (cc), (λ e. absurd (cc), tt)))),
        )
        (append-cancel config.prefix _ _ e),
  λ e. rw (e.0, e.1) refl,
)

-- For tenant ids with the bytes of valid ids only, two usage keys in Redis are equal exactly if the
-- tenants and the quota types are, and so are two limit keys; but a usage key is the limit key of a
-- tenant and a quota type exactly if its own tenant is called limit and its quota type is the two
-- with a colon in between.
pub build_usage_key_iff :
    (config : Config) (t u p q : Bytes)
    → All IsIdByte t
    → All IsIdByte u
    → ((build_usage_key config t p ≡ build_usage_key config u q) ↔ ((t ≡ u) × (p ≡ q)))
      × ((build_limit_key config t p ≡ build_limit_key config u q) ↔ ((t ≡ u) × (p ≡ q)))
      × ((build_usage_key config t p ≡ build_limit_key config u q)
          ↔ ((t ≡ codes "limit") × (p ≡ u ++ (b':' ∷ q))))
build_usage_key_iff config t u p q h k = (
  usage_key_iff config t u p q h k,
  limit_key_iff config t u p q h k,
  usage_key-limit_key config t u p q h,
)
