-- ===== src/Inject/Shape.antt =====
-- What the rewriting of a query leaves of its text.
use tenantkit.Inject.{
  guard_where, guard_text, select_text, select_ends, returning_ends, returning_keyword, conditions,
}
use tenantkit.Prelude.{
  ℕ, suc, ◌+◌, ◌≡◌, inl, inr, refl, sym, List, [], ◌∷◌, ◌++◌, none, some, length, take, drop,
  append_assoc, append-nil, take-append-drop, Option-cases, All, if◌then◌else◌, ◌⊎◌,
}
use tenantkit.Inject.Flat.{
  IsClosed, IsEnd, IsFlat, IsClauseKeyword, IsPlace, outer, keyword-IsPlace, to_upper-drop,
}
use tenantkit.Tables.{where_keyword, first_of_all, Config, TableRef}
use tenantkit.Placeholder.{PlaceholderStyle, placeholder}
use tenantkit.Text.{Bytes, codes, to_upper, index, trim_space, bytes_eq}
use tenantkit.Inject.Places.{
  take-index, select_ends_lem, returning_ends_lem, place-IsClosed, behind_where, first-IsPlace,
  length-to_upper, whole-IsClosed,
}

-- The filters with AND between them.
unfoldable pub joined : List Bytes → Bytes
joined [] = []
joined (f ∷ []) = f
joined (f ∷ g ∷ fs) = f ++ (codes " AND " ++ joined (g ∷ fs))

unfoldable qualifier : Bytes → Bytes → Bytes
qualifier name [] = name
qualifier name (c ∷ alias) = c ∷ alias

-- The filters of the tables, each with the placeholder of its position: `alias.column = $n`.
unfoldable pub table_filters : Config → PlaceholderStyle → ℕ → List TableRef → List Bytes
unfolding qualifier placeholder
table_filters config style next [] = []
table_filters config style next (t ∷ ts) =
    ((qualifier t.name t.alias ++ (b'.' ∷ config.tenant_column))
      ++ (codes " = " ++ placeholder style next))
    ∷ table_filters config style (suc next) ts

qualifier_lem :
    (name alias : Bytes) → (if bytes_eq alias [] then name else alias) ≡ qualifier name alias
unfolding qualifier bytes_eq
qualifier_lem name [] = refl
qualifier_lem name (c ∷ alias) = refl

pub conditions_lem :
    (config : Config) (style : PlaceholderStyle) (next : ℕ) (tables : List TableRef)
    → conditions config style next tables ≡ joined (table_filters config style next tables)
unfolding conditions joined table_filters
conditions_lem config style next [] = refl
conditions_lem config style next (t ∷ []) = rw (qualifier_lem t.name t.alias) refl
conditions_lem config style next (t ∷ u ∷ ts) =
    rw (qualifier_lem t.name t.alias, ← conditions_lem config style (suc next) (u ∷ ts)) refl

-- The filter is a conjunct of the whole condition of the result. With a WHERE in the query its
-- condition, that is all up to the next clause or the end, is put in brackets of its own behind the
-- filter; without one the filter is the condition of a WHERE in front of the next clause or at the
-- end. The WHERE is outside of brackets and quotes, and the old condition closes its own. `front` is
-- the result in front of the filter. No other byte of the query is changed, but that white space goes
-- at the ends of what is trimmed.
pub data IsScoped (filter query front result : Bytes) : Type 0 where
  guarded :
      (lead conditions after : Bytes)
      → query ≡ front ++ (conditions ++ after)
      → to_upper front ≡ lead ++ where_keyword
      → IsClosed front
      → IsClosed conditions
      → IsEnd after
      → result ≡ front ++ (filter ++ (codes " AND (" ++ (trim_space conditions ++ (b')' ∷ after))))
      → IsScoped filter query front result
  added :
      (before after : Bytes)
      → index (to_upper query) where_keyword ≡ none
      → query ≡ before ++ after
      → IsClosed before
      → IsEnd after
      → (front ≡ before ++ codes " WHERE ") ⊎ (front ≡ trim_space before ++ codes " WHERE ")
      → result ≡ front ++ (filter ++ after)
      → IsScoped filter query front result

-- What a statement has in front of its condition.
unfoldable pub guard_front : Bytes → Bytes
guard_front query = elim (index (to_upper query) where_keyword) [
  | some p ↦ take (p + 7) query
  | none ↦ elim (index (to_upper query) returning_keyword) [
    | some p ↦ take p query ++ codes " WHERE "
    | none ↦ query ++ codes " WHERE "
  ]
]

guard_where-IsScoped :
    (filter : Bytes) (ends : List Bytes) (p : ℕ) (query : Bytes)
    → All IsClauseKeyword ends
    → IsFlat query
    → index (to_upper query) where_keyword ≡ some p
    → IsScoped filter query (take (p + 7) query) (guard_where filter ends p query)
unfolding guard_where
guard_where-IsScoped filter ends p query clauses flat h =
    let rest = drop (p + 7) query in
    let stop = first_of_all (drop (p + 7) (to_upper query)) ends (length rest) in
    let (front, behind) = behind_where query p flat h in
    let place : IsPlace (outer 0) (to_upper rest) stop =
      rw (← to_upper-drop, ← length-to_upper)
        (first-IsPlace (outer 0) (to_upper rest) ends behind clauses) in
    let (closed, ended) = place-IsClosed rest stop place in
    guarded (to_upper (take p query)) (take stop rest) (drop stop rest)
      (rw (take-append-drop stop rest, take-append-drop (p + 7) query) refl)
      (take-index query where_keyword p h) front closed ended refl

pub added_at_end :
    (condition query : Bytes)
    → IsFlat query
    → index (to_upper query) where_keyword ≡ none
    → IsScoped condition query (query ++ codes " WHERE ") (query ++ (codes " WHERE " ++ condition))
added_at_end condition query flat e =
    added query [] e (sym (append-nil query)) (whole-IsClosed query flat) (inl refl) (inl refl)
      (rw append-nil (sym (append_assoc query (codes " WHERE ") condition)))

-- An UPDATE or a DELETE is scoped by the tenant condition.
pub guard_text-IsScoped :
    (condition query : Bytes)
    → IsFlat query
    → IsScoped condition query (guard_front query) (guard_text condition query)
unfolding guard_text guard_front
guard_text-IsScoped condition query flat =
    elim (Option-cases (index (to_upper query) where_keyword)) [
      | inr (p, e) ↦
          rw (e, guard_text, guard_front)
            (guard_where-IsScoped condition returning_ends p query returning_ends_lem flat e)
      | inl e ↦ elim (Option-cases (index (to_upper query) returning_keyword)) [
        | inr (p, e') ↦
            let (closed, ended) = place-IsClosed query p (
              keyword-IsPlace (outer 0) (to_upper query) returning_keyword p flat
                returning_ends_lem.0 e') in
            rw (e, e', guard_text, guard_front)
              (added (take p query) (drop p query) e (sym (take-append-drop p query)) closed ended
                (inl refl)
                (sym (append_assoc (take p query) (codes " WHERE ") (condition ++ drop p query))))
        | inl e' ↦ rw (e, e', guard_text, guard_front) (added_at_end condition query flat e)
      ]
    ]

-- So is a SELECT whose text is rewritten.
pub select_text-IsScoped :
    (filter query : Bytes)
    → IsFlat query
    → (front : Bytes) × IsScoped filter query front (select_text filter query)
unfolding select_text
select_text-IsScoped filter query flat =
    elim (Option-cases (index (to_upper query) where_keyword)) [
      | inr (p, e) ↦
          rw (e, select_text)
            (
              take (p + 7) query,
              guard_where-IsScoped filter select_ends p query select_ends_lem flat e,
            )
      | inl e ↦
          let p = first_of_all (to_upper query) select_ends (length query) in
          let place : IsPlace (outer 0) (to_upper query) p =
            rw (← length-to_upper query)
              (first-IsPlace (outer 0) (to_upper query) select_ends flat select_ends_lem) in
          let (closed, ended) = place-IsClosed query p place in
          rw (e, select_text)
            (
              trim_space (take p query) ++ codes " WHERE ",
              added (take p query) (drop p query) e (sym (take-append-drop p query)) closed ended
                  (inr refl)
                  (sym (
                    append_assoc (trim_space (take p query)) (codes " WHERE ")
                      (filter ++ drop p query))),
            )
    ]
