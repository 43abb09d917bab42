-- ===== src/Detector.antt =====
-- tenantkit/system_detector.go: the queries that bypass tenant filtering.
pub mod Laws
use tenantkit.Prelude.{
  ℕ, zero, suc, ◌+◌, ◌-◌, ◌*◌, ◌/◌, ◌%◌, ◌^◌, ◌≤◌, ◌<◌, min, ◌≡◌, refl, sym, ap, ◌∙◌, subst, ◌≢◌,
  ◌↔◌, ◌⊎◌, inl, inr, Bool, true, false, not, ◌&&◌, ◌||◌, Option, none, some, List, [], ◌∷◌, ◌++◌,
  map, foldr, reverse, append-nil, append_assoc, arith, ltb, leb, ◌==◌, if◌then◌else◌, Bool-cases,
  Option-cases, length, get_elem?, take, drop, replicate, any, All, length-append, take-append-drop,
  length-take, length-drop, length-replicate, take-append_left, drop-append_left,
  get_elem?-append_at, All-append, length-map, Result, ok, err, panic, ◌>>=◌, ok-injective,
  >>=-eq-ok, ℤ, pos, negsuc, is_negative, is_at_most_zero, magnitude,
}
use tenantkit.Text.{Bytes, codes, bytes_eq, to_upper, to_lower, has_prefix, contains, trim_space}

abbrev pub prefixes : List Bytes
prefixes = map codes (
    "ALTER " ∷ "CREATE " ∷ "DROP " ∷ "TRUNCATE " ∷ "GRANT " ∷ "REVOKE " ∷ "SHOW " ∷ "DESCRIBE "
    ∷ "EXPLAIN " ∷ "SET " ∷ "VACUUM " ∷ "ANALYZE " ∷ "REINDEX " ∷ [])

abbrev pub exact_match : List Bytes
exact_match =
    map codes ("SELECT 1" ∷ "SELECT NOW()" ∷ "SELECT VERSION()" ∷ "SELECT CURRENT_TIMESTAMP" ∷ [])

abbrev pub substrings : List Bytes
substrings = map codes (
    "pg_catalog" ∷ "pg_tables" ∷ "pg_stat" ∷ "mysql." ∷ "mysql.user" ∷ "mysql.db"
    ∷ "information_schema" ∷ "sys." ∷ "sys.databases" ∷ "performance_schema" ∷ [])

unfoldable pub is_system_query : Bytes → Bool
unfolding bytes_eq trim_space to_upper to_lower has_prefix contains
is_system_query query =
    let normalized = trim_space query in
    if bytes_eq query []
    then false
    else if any (λ exact. bytes_eq (to_upper normalized) exact) exact_match
    then true
    else if any (λ prefix. has_prefix (to_upper normalized) prefix) prefixes
    then true
    else any (λ substr. contains (to_lower normalized) substr) substrings
