-- ===== src/Http/Resolver/Path.antt =====
-- Which tenant id the resolver for paths finds, and that it finds no other.
use tenantkit.Prelude.{
  ℕ, ◌+◌, ◌≡◌, refl, sym, ◌∙◌, ◌≢◌, ◌↔◌, inl, inr, true, false, some, List, [], ◌∷◌, ◌++◌, arith,
  ltb, Bool-cases, Option-cases, length, get_elem?, length-append, ok, ok-injective, pos,
}
use native.Mathlib.Nat.{zero-add, suc-add}
use tenantkit.Http.{Request}
use tenantkit.Http.Resolver.{starts_with, segment_at, segments_of, resolve_path, shift}
use tenantkit.Text.{Bytes, bytes_eq, trim_space}
use tenantkit.Text.Equality.{bytes_eq_refl, eq_of_bytes_eq, ne_of_bytes_eq, bytes_eq-false}

starts_with-append : (prefix rest : List Bytes) → starts_with (prefix ++ rest) prefix ≡ true
unfolding starts_with
starts_with-append [] rest = refl
starts_with-append (p ∷ prefix) rest = rw (bytes_eq_refl p, starts_with-append prefix rest) refl

starts_with-split :
    (segments prefix : List Bytes)
    → starts_with segments prefix ≡ true
    → (rest : List Bytes) × (segments ≡ prefix ++ rest)
unfolding starts_with
starts_with-split segments [] h = (segments, refl)
starts_with-split [] (p ∷ prefix) h = absurd (cc)
starts_with-split (s ∷ segments) (p ∷ prefix) h = elim (Bool-cases (bytes_eq s p)) [
  | inl same ↦
      let (rest, e) = starts_with-split segments prefix (rw same at h) in
      (rest, rw (eq_of_bytes_eq s p same, e) refl)
  | inr other ↦ absurd (let bad = rw other at h in cc)
]

get_elem?-append_right :
    (xs ys : List Bytes) (n : ℕ) → get_elem? (xs ++ ys) (length xs + n) ≡ get_elem? ys n
get_elem?-append_right [] ys n = rw zero-add refl
get_elem?-append_right (x ∷ xs) ys n = rw suc-add (get_elem?-append_right xs ys n)

-- The trimmed segment at the index, counted from the end of the prefix, is the tenant id.
abbrev pub IsSegment : List Bytes → ℕ → Bytes → Type 0
IsSegment rest n t = (s : Bytes) × (get_elem? rest n ≡ some s) × (trim_space s ≡ t) × (t ≢ [])

segment_at-found :
    (segments : List Bytes) (n : ℕ) (t : Bytes)
    → IsSegment segments n t
    → segment_at segments (pos n) ≡ ok t
unfolding segment_at
segment_at-found segments n t (s, found, same, given) =
    rw (found, segment_at, same, bytes_eq-false t [] given) refl

segment_at-only :
    (segments : List Bytes) (n : ℕ) (t : Bytes)
    → segment_at segments (pos n) ≡ ok t
    → IsSegment segments n t
unfolding segment_at
segment_at-only segments n t h = elim (Option-cases (get_elem? segments n)) [
  | inl missing ↦ absurd (let bad = rw (missing, segment_at) at h in cc)
  | inr (s, found) ↦ elim (Bool-cases (bytes_eq (trim_space s) [])) [
    | inl blank ↦ absurd (let bad = rw (found, segment_at, blank) at h in cc)
    | inr given ↦
        let same = ok-injective (trim_space s) t (rw (found, segment_at, given) at h) in
        (s, found, same, λ e. ne_of_bytes_eq (trim_space s) [] given (same ∙ e))
  ]
]

-- The path begins with the prefix's segments, and the segment is counted from their end.
abbrev pub IsPathTenant : Bytes → ℕ → Bytes → Bytes → Type 0
IsPathTenant prefix n path t =
    (rest : List Bytes) × (segments_of path ≡ segments_of prefix ++ rest) × IsSegment rest n t

resolve_path-found :
    (prefix t : Bytes) (n : ℕ) (req : Request)
    → prefix ≢ []
    → IsPathTenant prefix n req.path t
    → resolve_path prefix (pos n) req ≡ ok t
unfolding resolve_path shift
resolve_path-found prefix t n req given (rest, e, (s, found, same, filled)) =
    let first = segments_of prefix in
    let long : ltb (length (first ++ rest)) (length first) ≡ false =
      ground (arith, length-append first rest) in
    let there = get_elem?-append_right first rest n ∙ found in
    rw (bytes_eq-false prefix [] given, e, long, starts_with-append first rest)
      (segment_at-found (first ++ rest) (length first + n) t (s, there, same, filled))

resolve_path-only :
    (prefix t : Bytes) (n : ℕ) (req : Request)
    → prefix ≢ []
    → resolve_path prefix (pos n) req ≡ ok t
    → IsPathTenant prefix n req.path t
unfolding resolve_path shift
resolve_path-only prefix t n req given h =
    let first = segments_of prefix in
    elim (Bool-cases (ltb (length (segments_of req.path)) (length first))) [
      | inl short ↦ absurd (let bad = rw (bytes_eq-false prefix [] given, short) at h in cc)
      | inr long ↦ elim (Bool-cases (starts_with (segments_of req.path) first)) [
        | inr other ↦ absurd (let bad = rw (bytes_eq-false prefix [] given, long, other) at h in cc)
        | inl begins ↦
            let (rest, e) = starts_with-split (segments_of req.path) first begins in
            let (s, found, same, filled) =
              segment_at-only (segments_of req.path) (length first + n) t
                (rw (bytes_eq-false prefix [] given, long, begins) at h) in
            let there : get_elem? (first ++ rest) (length first + n) ≡ some s = rw (← e) found in
            (rest, e, (s, sym (get_elem?-append_right first rest n) ∙ there, same, filled))
      ]
    ]

-- With a prefix and an index that is not negative the resolver for paths finds an id exactly if the
-- segments of the path begin with those of the prefix and the id is the trimmed segment at the
-- index behind them, and not empty.
pub resolve_path_iff :
    (prefix t : Bytes) (n : ℕ) (req : Request)
    → prefix ≢ []
    → (resolve_path prefix (pos n) req ≡ ok t) ↔ IsPathTenant prefix n req.path t
resolve_path_iff prefix t n req given =
    (resolve_path-only prefix t n req given, resolve_path-found prefix t n req given)
