-- ===== src/Http/Resolver.antt =====
-- adapters/http-stdlib/resolver.go: where a request's tenant id is read from.
pub mod Subdomain
pub mod Path
pub mod Chain
use tenantkit.Prelude.{
  ℕ, zero, suc, ◌+◌, ◌-◌, ◌*◌, ◌/◌, ◌%◌, ◌^◌, ◌≤◌, ◌<◌, min, ◌≡◌, refl, sym, ap, ◌∙◌, subst, ◌≢◌,
  ◌↔◌, ◌⊎◌, inl, inr, Bool, true, false, not, ◌&&◌, ◌||◌, Option, none, some, List, [], ◌∷◌, ◌++◌,
  map, foldr, reverse, append-nil, append_assoc, arith, ltb, leb, ◌==◌, if◌then◌else◌, Bool-cases,
  Option-cases, length, get_elem?, take, drop, replicate, any, All, length-append, take-append-drop,
  length-take, length-drop, length-replicate, take-append_left, drop-append_left,
  get_elem?-append_at, All-append, length-map, Result, ok, err, panic, ◌>>=◌, ok-injective,
  >>=-eq-ok, ℤ, pos, negsuc, is_negative, is_at_most_zero, magnitude,
}
use tenantkit.Http.{Request}
use tenantkit.Text.{
  Bytes, codes, bytes_eq, split, trim_space, trim_prefix, trim_suffix, has_suffix, contains,
}

pub data ResolveError : Type 0 where
  no_host no_subdomain foreign_domain empty_subdomain nested_subdomain : ResolveError
  no_header blank_header : ResolveError
  short_path other_prefix no_segment empty_segment : ResolveError
  no_extractor no_parser extraction_failed no_token claim_failed empty_claim : ResolveError
  no_authorization bad_authorization no_resolvers : ResolveError

abbrev pub Resolved : Type 0
Resolved = Result ResolveError Bytes

-- `parts[0]`
unfoldable pub first_part : List Bytes → Bytes
first_part [] = []
first_part (p ∷ parts) = p

unfoldable pub host_of : Request → Bytes
host_of req = if bytes_eq req.host [] then req.header (codes "Host") else req.host

-- The subdomain, of a host with no port.
unfoldable pub subdomain_of : Bytes → Bytes → Resolved
subdomain_of domain host =
    if bytes_eq host domain
    then err no_subdomain
    else if has_suffix host (b'.' ∷ domain)
    then (let full_subdomain = trim_suffix host (b'.' ∷ domain) in
        if bytes_eq full_subdomain []
        then err empty_subdomain
        else if contains full_subdomain (b'.' ∷ [])
        then err nested_subdomain
        else ok full_subdomain)
    else err foreign_domain

unfoldable pub resolve_subdomain : Bytes → Request → Resolved
resolve_subdomain domain req =
    if bytes_eq (host_of req) []
    then err no_host
    else subdomain_of domain (first_part (split (host_of req) b':'))

unfoldable pub new_header_resolver : Bytes → Bytes
new_header_resolver name = if bytes_eq name [] then codes "X-Tenant-ID" else name

unfoldable pub resolve_header : Bytes → Request → Resolved
resolve_header name req =
    if bytes_eq (req.header name) []
    then err no_header
    else if bytes_eq (trim_space (req.header name)) []
    then err blank_header
    else ok (trim_space (req.header name))

-- The loop over the segments of the prefix, of which the path has at least as many.
unfoldable pub starts_with : List Bytes → List Bytes → Bool
starts_with segments [] = true
starts_with [] (p ∷ prefix) = false
starts_with (s ∷ segments) (p ∷ prefix) =
    let rest = starts_with segments prefix in bytes_eq s p && rest

-- The segment at an index, which panics below 0.
unfoldable pub segment_at : List Bytes → ℤ → Resolved
segment_at segments (negsuc n) = panic
segment_at segments (pos n) = elim (get_elem? segments n) [
  | none ↦ err no_segment
  | some s ↦ if bytes_eq (trim_space s) [] then err empty_segment else ok (trim_space s)
]

-- `prefixStart + r.PathSegment`
unfoldable pub shift : ℕ → ℤ → ℤ
shift n (pos m) = pos (n + m)
shift n (negsuc m) = if ltb m n then pos (n - suc m) else negsuc (m - n)

unfoldable pub segments_of : Bytes → List Bytes
segments_of path = split (trim_prefix path (codes "/")) b'/'

unfoldable pub resolve_path : Bytes → ℤ → Request → Resolved
resolve_path prefix path_segment req =
    let segments = segments_of req.path in
    if bytes_eq prefix []
    then segment_at segments path_segment
    else if ltb (length segments) (length (segments_of prefix))
    then err short_path
    else if starts_with segments (segments_of prefix)
    then segment_at segments (shift (length (segments_of prefix)) path_segment)
    else err other_prefix

-- The functions of the program that uses the library; a nil function is `none`.
pub record JwtResolver : Type 0 where
  pub claim_name : Bytes
  pub token_extractor : Option (Request → Resolved)
  pub claim_parser : Option (Bytes → Bytes → Resolved)

unfoldable pub new_jwt_resolver :
    Bytes → Option (Request → Resolved) → Option (Bytes → Bytes → Resolved) → JwtResolver
new_jwt_resolver claim_name token_extractor claim_parser = record {
  claim_name = if bytes_eq claim_name [] then codes "tenant_id" else claim_name;
  token_extractor = token_extractor;
  claim_parser = claim_parser;
}

unfoldable pub claim_of : Resolved → Resolved
claim_of (ok tenant_id) = if bytes_eq tenant_id [] then err empty_claim else ok tenant_id
claim_of (err e) = err claim_failed
claim_of panic = panic

unfoldable pub tenant_of_token : (Bytes → Bytes → Resolved) → Bytes → Resolved → Resolved
tenant_of_token parse claim_name (ok token) =
    if bytes_eq token [] then err no_token else claim_of (parse token claim_name)
tenant_of_token parse claim_name (err e) = err extraction_failed
tenant_of_token parse claim_name panic = panic

unfoldable pub resolve_jwt : JwtResolver → Request → Resolved
resolve_jwt r req = elim r.token_extractor [
  | none ↦ err no_extractor
  | some extract ↦ elim r.claim_parser [
    | none ↦ err no_parser
    | some parse ↦ tenant_of_token parse r.claim_name (extract req)
  ]
]

unfoldable pub bearer_of : List Bytes → Resolved
bearer_of (scheme ∷ token ∷ []) =
    if bytes_eq scheme (codes "Bearer") then ok token else err bad_authorization
bearer_of _ = err bad_authorization

unfoldable pub extract_bearer_token : Request → Resolved
extract_bearer_token req =
    let auth_header = req.header (codes "Authorization") in
    if bytes_eq auth_header [] then err no_authorization else bearer_of (split auth_header b' ')

-- The loop of chainResolver.Resolve; `last` is the last error.
unfoldable pub resolve_chain : List (Request → Resolved) → Request → ResolveError → Resolved
resolve_chain [] req last = err last
resolve_chain (r ∷ resolvers) req last = elim (r req) [
  | ok tenant_id ↦ ok tenant_id
  | err e ↦ resolve_chain resolvers req e
  | panic ↦ panic
]

unfoldable pub chain_resolvers : List (Request → Resolved) → Request → Resolved
chain_resolvers resolvers req = resolve_chain resolvers req no_resolvers
