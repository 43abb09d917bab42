-- ===== src/Http/Resolver/Subdomain.antt =====
-- Which tenant id the resolver for subdomains finds, and that it finds no other.
use tenantkit.Prelude.{
  ◌≡◌, refl, ap, subst, ◌≢◌, ◌↔◌, inl, inr, false, [], ◌∷◌, ◌++◌, arith, Bool-cases, length,
  length-append, ok, ok-injective,
}
use tenantkit.Http.{Request}
use tenantkit.Http.Resolver.{first_part, host_of, subdomain_of, resolve_subdomain}
use tenantkit.Text.{Bytes, bytes_eq, split, split_from, contains, has_suffix}
use tenantkit.Text.Equality.{eq_of_bytes_eq, ne_of_bytes_eq, bytes_eq-false}
use tenantkit.Text.Suffix.{has_suffix-append, has_suffix-split, trim_suffix-append}

-- The host is the subdomain, a dot and the domain; the subdomain is not empty and holds no dot.
abbrev pub IsSubdomain : Bytes → Bytes → Bytes → Type 0
IsSubdomain domain host t =
    (host ≡ t ++ (b'.' ∷ domain)) × (t ≢ []) × (contains t (b'.' ∷ []) ≡ false)

longer : (t domain : Bytes) → t ++ (b'.' ∷ domain) ≢ domain
longer t domain e = absurd (omega (arith, ap length e, length-append t (b'.' ∷ domain)))

subdomain_of-found :
    (domain host t : Bytes) → IsSubdomain domain host t → subdomain_of domain host ≡ ok t
unfolding subdomain_of
subdomain_of-found domain host t (e, given, flat) =
    rw
      (
        e,
        bytes_eq-false (t ++ (b'.' ∷ domain)) domain (longer t domain),
        has_suffix-append t (b'.' ∷ domain),
        trim_suffix-append t (b'.' ∷ domain),
        bytes_eq-false t [] given,
        flat,
      )
      refl

-- The text in front of the domain is returned where it passes the last two tests.
subdomain_of-suffix :
    (domain u t : Bytes)
    → subdomain_of domain (u ++ (b'.' ∷ domain)) ≡ ok t
    → (u ≡ t) × (u ≢ []) × (contains u (b'.' ∷ []) ≡ false)
unfolding subdomain_of
subdomain_of-suffix domain u t h =
    let h' =
      rw
        (
          bytes_eq-false (u ++ (b'.' ∷ domain)) domain (longer u domain),
          has_suffix-append u (b'.' ∷ domain),
          trim_suffix-append u (b'.' ∷ domain),
        )
        at h in
    elim (Bool-cases (bytes_eq u [])) [
      | inl empty ↦ absurd (let bad = rw empty at h' in cc)
      | inr given ↦ elim (Bool-cases (contains u (b'.' ∷ []))) [
        | inl nested ↦ absurd (let bad = rw (given, nested) at h' in cc)
        | inr flat ↦ (ok-injective u t (rw (given, flat) at h'), ne_of_bytes_eq u [] given, flat)
      ]
    ]

subdomain_of-only :
    (domain host t : Bytes) → subdomain_of domain host ≡ ok t → IsSubdomain domain host t
unfolding subdomain_of
subdomain_of-only domain host t h = elim (Bool-cases (bytes_eq host domain)) [
  | inl same ↦ absurd (let bad = rw same at h in cc)
  | inr other ↦ elim (Bool-cases (has_suffix host (b'.' ∷ domain))) [
    | inr foreign ↦ absurd (let bad = rw (other, foreign) at h in cc)
    | inl inside ↦
        let (u, e) = has_suffix-split host (b'.' ∷ domain) inside in
        let (same, given, flat) =
          subdomain_of-suffix domain u t
            (subst (λ (x : Bytes). subdomain_of domain x ≡ ok t) e h) in
        subst (λ (x : Bytes). IsSubdomain domain host x) same (e, given, flat)
  ]
]

-- The host with no port.
abbrev pub host_name : Request → Bytes
host_name req = first_part (split (host_of req) b':')

not-IsSubdomain-nil : (domain t : Bytes) → ¬ IsSubdomain domain [] t
not-IsSubdomain-nil domain t (e, _, _) =
    absurd (omega (arith, ap length e, length-append t (b'.' ∷ domain)))

-- The resolver for subdomains finds an id exactly if the host without its port is the id, a dot and
-- the domain, and the id is not empty and holds no dot.
pub resolve_subdomain_iff :
    (domain t : Bytes) (req : Request)
    → (resolve_subdomain domain req ≡ ok t) ↔ IsSubdomain domain (host_name req) t
unfolding resolve_subdomain
resolve_subdomain_iff domain t req = elim (Bool-cases (bytes_eq (host_of req) [])) [
  | inl empty ↦
      rw (empty, eq_of_bytes_eq (host_of req) [] empty)
        (
          λ h. absurd (cc),
          λ h. absurd (not-IsSubdomain-nil domain t (unfold split split_from first_part in h)),
        )
  | inr given ↦
      rw given
        (subdomain_of-only domain (host_name req) t, subdomain_of-found domain (host_name req) t)
]
