-- ===== src/Inject/Places.antt =====
-- The places of a query where a clause ends: where the brackets and quotes are closed, and the next
-- clause begins or nothing follows.
use tenantkit.Inject.{select_ends, returning_ends, returning_keyword}
use tenantkit.Prelude.{
  ℕ, ◌+◌, ◌≡◌, inl, inr, refl, sym, List, [], ◌∷◌, ◌++◌, some, arith, length, take, drop,
  append_assoc, length-append, length-take, take-append_left, All, ap, length-map, ◌∙◌, true,
}
use mathlib.Core.Option.{some-injective}
use tenantkit.Inject.Flat.{
  IsClosed, IsEnd, IsFlat, IsClauseKeyword, clause_keyword, set_keyword, IsPlace, outer, Scan, scan,
  step, scan-append, is_flat, is_flat-drop, keyword-IsPlace, to_upper-drop, end-IsPlace,
  first_of_all-cases,
}
use tenantkit.Tables.{where_keyword, first_of_all}
use tenantkit.Text.{Bytes, codes, to_upper, index, has_prefix, upper_byte}
use tenantkit.Text.Case.{to_upper-take}
use tenantkit.Text.Search.{index-split, index-le}

-- The beginning of a text in three parts.
pub take_of_split :
    (n : ℕ) (u xs ys zs : Bytes)
    → u ≡ xs ++ (ys ++ zs)
    → n ≡ length xs + length ys
    → take n u ≡ xs ++ ys
take_of_split n u xs ys zs e h =
    let both : n ≡ length (xs ++ ys) = omega (arith, length-append xs ys) in
    rw (e, both, ← append_assoc xs ys zs) (take-append_left (xs ++ ys) zs)

-- What stands before the end of a keyword's first occurrence, in upper case.
pub take-index :
    (s keyword : Bytes) (p : ℕ)
    → index (to_upper s) keyword ≡ some p
    → to_upper (take (p + length keyword) s) ≡ to_upper (take p s) ++ keyword
take-index s keyword p h =
    rw (to_upper-take (p + length keyword) s, to_upper-take p s)
      (take_of_split (p + length keyword) (to_upper s) (take p (to_upper s)) keyword _
        (index-split (to_upper s) keyword p h)
        (omega (arith, length-take p (to_upper s), index-le (to_upper s) keyword p h)))

pub select_ends_lem : All IsClauseKeyword select_ends
unfolding has_prefix
select_ends_lem = (
  clause_keyword (codes " ORDER BY ") (λ rest. refl),
  (
    clause_keyword (codes " GROUP BY ") (λ rest. refl),
    (
      clause_keyword (codes " LIMIT ") (λ rest. refl),
      (
        clause_keyword (codes " HAVING ") (λ rest. refl),
        (
          set_keyword b' ' (codes "UNION ") (λ rest. refl),
          (
            set_keyword b' ' (codes "EXCEPT ") (λ rest. refl),
            (
              set_keyword b' ' (codes "INTERSECT ") (λ rest. refl),
              (
                clause_keyword (codes " FOR UPDATE") (λ rest. refl),
                (clause_keyword (codes " FOR SHARE") (λ rest. refl), tt),
              ),
            ),
          ),
        ),
      ),
    ),
  ),
)

pub returning_ends_lem : All IsClauseKeyword returning_ends
unfolding has_prefix
returning_ends_lem = (clause_keyword returning_keyword (λ rest. refl), tt)

upper_empty : (s : Bytes) → to_upper s ≡ [] → s ≡ []
unfolding to_upper
upper_empty [] h = refl
upper_empty (c ∷ s) h = absurd (cc)

-- A place in the upper case text is one in the text.
pub place-IsClosed :
    (s : Bytes) (p : ℕ) → IsPlace (outer 0) (to_upper s) p → IsClosed (take p s) × IsEnd (drop p s)
unfolding to_upper
place-IsClosed s p (closed, inl e) =
    (rw to_upper-take closed, inl (upper_empty _ (to_upper-drop p s ∙ e)))
place-IsClosed s p (closed, inr k) = (rw to_upper-take closed, inr (rw to_upper-drop k))

-- The text behind the first WHERE is flat as well.
pub behind_where :
    (query : Bytes) (p : ℕ)
    → IsFlat query
    → index (to_upper query) where_keyword ≡ some p
    → IsClosed (take (p + 7) query) × (is_flat (outer 0) (to_upper (drop (p + 7) query)) ≡ true)
unfolding has_prefix
behind_where query p flat found =
    let (closed, _) =
      keyword-IsPlace (outer 0) (to_upper query) where_keyword p flat
        (clause_keyword where_keyword (λ rest. refl)) found in
    let front : IsClosed (take (p + 7) query) =
      rw
        (
          take-index query where_keyword p found,
          to_upper-take p query,
          scan-append (outer 0) (outer 0) (take p (to_upper query)) where_keyword closed,
        )
        (unfold scan step in refl) in
    let (next, walked, tail) = is_flat-drop (p + 7) (outer 0) (to_upper query) flat in
    let same : next ≡ outer 0 = some-injective _ _ (sym walked ∙ rw to_upper-take at front) in
    (front, rw to_upper-drop (rw same at tail))

-- The first of the keywords or the end is a place.
pub first-IsPlace :
    (st : Scan) (u : Bytes) (ends : List Bytes)
    → is_flat st u ≡ true
    → All IsClauseKeyword ends
    → IsPlace st u (first_of_all u ends (length u))
first-IsPlace st u ends flat clauses =
    elim (first_of_all-cases IsClauseKeyword u ends (length u) clauses) [
      | inl last ↦ rw last (end-IsPlace st u flat)
      | inr (keyword, clause, found) ↦ keyword-IsPlace st u keyword _ flat clause found
    ]

pub length-to_upper : (s : Bytes) → length (to_upper s) ≡ length s
unfolding to_upper
length-to_upper s = length-map upper_byte s

take_all : (s : Bytes) → take (length s) s ≡ s
take_all [] = refl
take_all (c ∷ s) = ap (◌∷◌ c) (take_all s)

-- A flat text is closed.
pub whole-IsClosed : (s : Bytes) → is_flat (outer 0) (to_upper s) ≡ true → IsClosed s
whole-IsClosed s flat = rw take_all at (end-IsPlace (outer 0) (to_upper s) flat).0
