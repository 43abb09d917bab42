-- ===== src/Detector/Laws.antt =====
-- Which queries are taken for system queries.
use tenantkit.Prelude.{
  ◌≡◌, ◌≢◌, inl, inr, Bool, true, false, List, [], ◌∷◌, ◌++◌, arith, if◌then◌else◌, Bool-cases, any,
}
use tenantkit.Text.{Bytes, trim_space, bytes_eq, to_lower, contains}
use tenantkit.Detector.{is_system_query, substrings}
use tenantkit.Text.Case.{to_lower-append}
use tenantkit.Text.Search.{contains-append}
use tenantkit.Text.Equality.{eq_of_bytes_eq, bytes_eq_iff}

any_mono :
    (p q : Bytes → Bool) (xs : List Bytes)
    → any q xs ≡ true
    → ((x : Bytes) → q x ≡ true → p x ≡ true)
    → any p xs ≡ true
any_mono p q [] h k = cc
any_mono p q (x ∷ xs) h k = elim (Bool-cases (q x)) [
  | inl e ↦ rw (k x e)
  | inr e ↦ let rest = any_mono p q xs (rw e at h) k in ground arith
]

abbrev pub is_marker : Bytes → Bool
is_marker marker = any (λ substr. bytes_eq (to_lower marker) substr) substrings

last_test :
    (empty exact prefix marked : Bool)
    → empty ≡ false
    → marked ≡ true
    → (if empty then false else if exact then true else if prefix then true else marked) ≡ true
last_test empty exact prefix marked e m = ground arith

not-empty : (s : Bytes) → s ≢ [] → bytes_eq s [] ≡ false
not-empty s n = ground (arith, bytes_eq_iff s [])

-- A marker of the system schemas anywhere in the text of a query, so in a string literal, a comment
-- or a name of the user as well and in whatever case, makes it a system query, which is not
-- filtered.
pub marker-is_system_query :
    (query before marker after : Bytes)
    → trim_space query ≡ before ++ (marker ++ after)
    → query ≢ []
    → is_marker marker ≡ true
    → is_system_query query ≡ true
unfolding is_system_query
marker-is_system_query query before marker after t n m =
    let found : any (λ substr. contains (to_lower (trim_space query)) substr) substrings ≡ true =
      any_mono _ _ substrings m λ x e. contained x (eq_of_bytes_eq (to_lower marker) x e) in
    last_test (bytes_eq query []) _ _ _ (not-empty query n) found
  where
    contained : (x : Bytes) → to_lower marker ≡ x → contains (to_lower (trim_space query)) x ≡ true
    contained x e =
        rw (t, to_lower-append before (marker ++ after), to_lower-append marker after, ← e)
          (contains-append (to_lower before) (to_lower marker) (to_lower after))
