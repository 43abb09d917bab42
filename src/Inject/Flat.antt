-- ===== src/Inject/Flat.antt =====
-- Texts whose clauses can be told apart by their keywords: the brackets and quotes are closed, and the
-- keywords stand outside of them. This is about the SQL of a query, not about the code.
use tenantkit.Prelude.{
  ℕ, zero, suc, ◌+◌, ◌-◌, ◌≡◌, refl, sym, ap, ◌∙◌, ◌⊎◌, inl, inr, Bool, true, false, not, ◌&&◌,
  ◌||◌, Option, none, some, List, [], ◌∷◌, ◌++◌, map, arith, ltb, ◌==◌, if◌then◌else◌, Bool-cases,
  Option-cases, length, take, drop, any, All,
}
use mathlib.Core.Option.{some-injective}
use tenantkit.Tables.{earlier, first_of_all}
use tenantkit.Text.{Bytes, codes, has_prefix, index, to_upper}
use tenantkit.Text.Search.{has_prefix-split, index-zero, index-suc}
use native.Mathlib.Nat.{zero-add, suc-add}

-- What follows FROM or WHERE in one SELECT, UPDATE or DELETE.
abbrev pub clause_keywords : List Bytes
clause_keywords = map codes (
    " WHERE " ∷ " GROUP BY " ∷ " HAVING " ∷ " ORDER BY " ∷ " LIMIT " ∷ " FOR UPDATE" ∷ " FOR SHARE"
    ∷ " RETURNING " ∷ [])

-- What joins or ends a statement, or begins a comment.
abbrev pub excluded : List Bytes
excluded = map codes ("UNION" ∷ "EXCEPT" ∷ "INTERSECT" ∷ ";" ∷ "--" ∷ "/*" ∷ [])

-- Inside so many brackets, and in a literal or a quoted name, which the byte ends.
pub data Scan : Type 0 where
  outer : ℕ → Scan
  quoted_by : ℕ → ℕ → Scan

unfoldable pub step : Scan → ℕ → Option Scan
step (outer n) c =
    if c == b'('
    then some (outer (suc n))
    else if c == b')'
    then if ltb 0 n then some (outer (n - 1)) else none
    else if c == b'\'' || c == b'"' || c == b'`'
    then some (quoted_by c n)
    else some (outer n)
step (quoted_by q n) c = if c == q then some (outer n) else some (quoted_by q n)

unfoldable pub scan : Scan → Bytes → Option Scan
scan st [] = some st
scan st (c ∷ cs) = elim (step st c) [ none ↦ none | some next ↦ scan next cs ]

unfoldable pub is_outside : Scan → Bool
is_outside (outer n) = n == 0
is_outside (quoted_by q n) = false

unfoldable pub allowed : Scan → Bytes → Bool
allowed st u =
    not (any (has_prefix u) excluded) && (is_outside st || not (any (has_prefix u) clause_keywords))

-- From here on, in upper case, every keyword is outside of brackets and quotes, these are closed at
-- the end, and nothing that is excluded occurs.
unfoldable pub is_flat : Scan → Bytes → Bool
is_flat st [] = is_outside st
is_flat st (c ∷ cs) =
    allowed st (c ∷ cs) && elim (step st c) [ none ↦ false | some next ↦ is_flat next cs ]

abbrev pub IsFlat : Bytes → Type 0
IsFlat query = is_flat (outer 0) (to_upper query) ≡ true

-- The brackets and quotes of a text are closed.
abbrev pub IsClosed : Bytes → Type 0
IsClosed s = scan (outer 0) (to_upper s) ≡ some (outer 0)

-- Nothing follows, or the next clause.
abbrev pub IsEnd : Bytes → Type 0
IsEnd after = (after ≡ []) ⊎ (any (has_prefix (to_upper after)) clause_keywords ≡ true)

pub outside_eq : (st : Scan) → is_outside st ≡ true → st ≡ outer 0
unfolding is_outside
outside_eq (outer n) h = let zero_depth : n ≡ 0 = ground (arith, h) in ap outer zero_depth
outside_eq (quoted_by q n) h = absurd (cc)

pub allowed-is_flat : (st : Scan) (u : Bytes) → is_flat st u ≡ true → allowed st u ≡ true
unfolding is_flat
allowed-is_flat st [] h = unfold allowed has_prefix is_outside in rw h refl
allowed-is_flat st (c ∷ cs) h = ground arith

-- A flat text is flat from any of its positions on.
pub is_flat-drop :
    (n : ℕ) (st : Scan) (u : Bytes)
    → is_flat st u ≡ true
    → (next : Scan) × (scan st (take n u) ≡ some next) × (is_flat next (drop n u) ≡ true)
unfolding scan is_flat
is_flat-drop zero st u h = (st, refl, h)
is_flat-drop (suc n) st [] h = (st, refl, h)
is_flat-drop (suc n) st (c ∷ cs) h = elim (Option-cases (step st c)) [
  | inl stuck ↦ absurd (let bad = rw stuck at h in ground arith)
  | inr (next, e) ↦
      let h' = rw e at h in
      let rest : is_flat next cs ≡ true = ground arith in
      let (last, walked, flat) = is_flat-drop n next cs rest in (last, rw (e, scan) walked, flat)
]

pub scan-append :
    (st next : Scan) (s t : Bytes) → scan st s ≡ some next → scan st (s ++ t) ≡ scan next t
unfolding scan
scan-append st next [] t h = ap (λ st. scan st t) (some-injective _ _ h)
scan-append st next (c ∷ s) t h = elim (Option-cases (step st c)) [
  | inl stuck ↦ absurd (let bad = rw (stuck, scan) at h in cc)
  | inr (middle, e) ↦ rw (e, scan) (scan-append middle next s t (rw (e, scan) at h))
]

-- A keyword that stands outside of brackets and quotes wherever it begins a flat text.
abbrev pub IsClauseKeyword : Bytes → Type 0
IsClauseKeyword keyword =
    (st : Scan) (rest : Bytes)
    → is_flat st (keyword ++ rest) ≡ true
    → (st ≡ outer 0) × (any (has_prefix (keyword ++ rest)) clause_keywords ≡ true)

pub clause_keyword :
    (keyword : Bytes)
    → ((rest : Bytes) → any (has_prefix (keyword ++ rest)) clause_keywords ≡ true)
    → IsClauseKeyword keyword
unfolding allowed
clause_keyword keyword known st rest flat =
    let fine = allowed-is_flat st (keyword ++ rest) flat in
    let k = known rest in (outside_eq st (ground arith), k)

-- No flat text begins with a set operation.
pub set_keyword :
    (c : ℕ) (word : Bytes)
    → ((rest : Bytes) → any (has_prefix (word ++ rest)) excluded ≡ true)
    → IsClauseKeyword (c ∷ word)
unfolding allowed
set_keyword c word known st rest flat =
    let (next, walked, tail) = is_flat-drop 1 st (c ∷ (word ++ rest)) flat in
    let fine = allowed-is_flat next (word ++ rest) tail in
    let k = known rest in absurd (ground arith)

pub index-drop : (s t : Bytes) (p : ℕ) → index s t ≡ some p → drop p s ≡ t ++ drop (p + length t) s
index-drop s t zero h = rw zero-add (has_prefix-split s t (index-zero s t h))
index-drop [] t (suc p) h = absurd (unfold index in ground arith)
index-drop (c ∷ s) t (suc p) h = rw suc-add (index-drop s t p (index-suc c s t p h))

-- The first keyword of several, or the end.
pub first_of_all-cases :
    (P : Bytes → Type 0) (u : Bytes) (ks : List Bytes) (stop : ℕ)
    → All P ks
    → (first_of_all u ks stop ≡ stop)
      ⊎ ((k : Bytes) × P k × (index u k ≡ some (first_of_all u ks stop)))
unfolding first_of_all earlier
first_of_all-cases P u [] stop h = inl refl
first_of_all-cases P u (k ∷ ks) stop (here, h) = elim (Option-cases (index u k)) [
  | inl e ↦ rw e (first_of_all-cases P u ks stop h)
  | inr (pos, e) ↦ elim (Bool-cases (ltb pos stop)) [
    | inr far ↦ rw (e, far) (first_of_all-cases P u ks stop h)
    | inl near ↦
        rw (e, near)
          (elim (first_of_all-cases P u ks pos h) [
            | inl same ↦ inr (k, here, e ∙ ap some (sym same))
            | inr found ↦ inr found
          ])
  ]
]

pub to_upper-drop : (n : ℕ) (s : Bytes) → to_upper (drop n s) ≡ drop n (to_upper s)
unfolding to_upper
to_upper-drop zero s = refl
to_upper-drop (suc n) [] = refl
to_upper-drop (suc n) (c ∷ s) = to_upper-drop n s

-- A place of a text between clauses: what stands before it is closed, and a clause begins or nothing
-- follows.
abbrev pub IsPlace : Scan → Bytes → ℕ → Type 0
IsPlace st u p =
    (scan st (take p u) ≡ some (outer 0))
    × ((drop p u ≡ []) ⊎ (any (has_prefix (drop p u)) clause_keywords ≡ true))

pub keyword-IsPlace :
    (st : Scan) (u keyword : Bytes) (p : ℕ)
    → is_flat st u ≡ true
    → IsClauseKeyword keyword
    → index u keyword ≡ some p
    → IsPlace st u p
keyword-IsPlace st u keyword p flat clause found =
    let (next, walked, tail) = is_flat-drop p st u flat in
    let e = index-drop u keyword p found in
    let (outside, known) = clause next (drop (p + length keyword) u) (rw e at tail) in
    (walked ∙ ap some outside, inr (rw e known))

drop-length : (u : Bytes) → drop (length u) u ≡ []
drop-length [] = refl
drop-length (c ∷ u) = drop-length u

pub end-IsPlace : (st : Scan) (u : Bytes) → is_flat st u ≡ true → IsPlace st u (length u)
unfolding is_flat
end-IsPlace st u flat =
    let (next, walked, tail) = is_flat-drop (length u) st u flat in
    let empty : drop (length u) u ≡ [] = drop-length u in
    (walked ∙ ap some (outside_eq next (rw empty at tail)), inl empty)
