-- ===== src/Text.antt =====
-- The functions of Go's package strings that the program calls, over a text's bytes. Case
-- conversion and white space are those of ASCII texts; a byte above 127 stays as it is.
pub mod Equality
pub mod Case
pub mod Search
pub mod Spaces
pub mod Suffix
use Prim.Native.Char.{code}
use Prim.Native.String.{String}
use mathlib.Core.Option
use tenantkit.Prelude.{
  ℕ, suc, ◌+◌, ◌-◌, Bool, true, false, ◌&&◌, ◌||◌, List, [], ◌∷◌, ◌++◌, map, reverse, Option, none,
  some, leb, ◌==◌, if◌then◌else◌, length, drop, take,
}

abbrev pub Bytes : Type 0
Bytes = List ℕ

-- The bytes of a literal, which is ASCII.
abbrev pub codes : String → Bytes
codes String.[] = []
codes (String.◌∷◌ c s) = code c ∷ codes s

-- `a == b` on strings
unfoldable pub bytes_eq : Bytes → Bytes → Bool
bytes_eq [] [] = true
bytes_eq (a ∷ s) (b ∷ t) = a == b && bytes_eq s t
bytes_eq _ _ = false

unfoldable pub upper_byte : ℕ → ℕ
upper_byte c = if leb b'a' c && leb c b'z' then c - 32 else c

unfoldable pub lower_byte : ℕ → ℕ
lower_byte c = if leb b'A' c && leb c b'Z' then c + 32 else c

-- strings.ToUpper, strings.ToLower
unfoldable pub to_upper : Bytes → Bytes
unfolding upper_byte
to_upper = map upper_byte

unfoldable pub to_lower : Bytes → Bytes
unfolding lower_byte
to_lower = map lower_byte

-- strings.EqualFold
unfoldable pub equal_fold : Bytes → Bytes → Bool
unfolding bytes_eq to_lower
equal_fold s t = bytes_eq (to_lower s) (to_lower t)

-- strings.HasPrefix
unfoldable pub has_prefix : Bytes → Bytes → Bool
has_prefix s [] = true
has_prefix [] (b ∷ t) = false
has_prefix (a ∷ s) (b ∷ t) = a == b && has_prefix s t

-- strings.Index: the position of the first occurrence, `none` for -1.
unfoldable pub index : Bytes → Bytes → Option ℕ
unfolding has_prefix
index [] t = if has_prefix [] t then some 0 else none
index (c ∷ s) t =
    let later = Option.map suc (index s t) in if has_prefix (c ∷ s) t then some 0 else later

-- strings.Contains
unfoldable pub contains : Bytes → Bytes → Bool
unfolding index
contains s t = elim (index s t) [ none ↦ false | some _ ↦ true ]

-- strings.Count of a text of one byte
unfoldable pub count : ℕ → Bytes → ℕ
count b [] = 0
count b (c ∷ s) = (if c == b then 1 else 0) + count b s

unfoldable pub is_space : ℕ → Bool
is_space c = c == 32 || (leb 9 c && leb c 13)

-- Drops the leading bytes of a class.
unfoldable pub trim_left : (ℕ → Bool) → Bytes → Bytes
trim_left p [] = []
trim_left p (c ∷ s) = if p c then trim_left p s else c ∷ s

-- strings.TrimFunc
unfoldable pub trim_func : (ℕ → Bool) → Bytes → Bytes
unfolding trim_left
trim_func p s = reverse (trim_left p (reverse (trim_left p s)))

-- strings.TrimSpace
unfoldable pub trim_space : Bytes → Bytes
unfolding trim_func is_space
trim_space = trim_func is_space

-- strings.TrimSuffix
unfoldable pub trim_suffix : Bytes → Bytes → Bytes
unfolding has_prefix
trim_suffix s t = if has_prefix (reverse s) (reverse t) then take (length s - length t) s else s

-- A run is a field if it holds a byte.
unfoldable pub close_field : Bytes → List Bytes → List Bytes
close_field [] rest = rest
close_field (c ∷ cur) rest = (c ∷ cur) ∷ rest

-- strings.Fields: the maximal runs of bytes that are no white space; `cur` is the open run.
unfoldable pub fields_from : Bytes → Bytes → List Bytes
unfolding is_space close_field
fields_from cur [] = close_field cur []
fields_from cur (c ∷ s) =
    let closed = close_field cur (fields_from [] s) in
    let longer = fields_from (cur ++ c ∷ []) s in if is_space c then closed else longer

unfoldable pub fields : Bytes → List Bytes
unfolding fields_from
fields = fields_from []

-- strings.Split at one byte
unfoldable pub split_from : ℕ → Bytes → Bytes → List Bytes
split_from b cur [] = cur ∷ []
split_from b cur (c ∷ s) =
    let closed = cur ∷ split_from b [] s in
    let longer = split_from b (cur ++ c ∷ []) s in if c == b then closed else longer

unfoldable pub split : Bytes → ℕ → List Bytes
unfolding split_from
split s b = split_from b [] s

-- strings.Replace(s, old, new, 1) at one byte
unfoldable pub replace_first : ℕ → Bytes → Bytes → Bytes
replace_first b new [] = []
replace_first b new (c ∷ s) = if c == b then new ++ s else c ∷ replace_first b new s

-- strings.LastIndex of one byte
unfoldable pub last_index : Bytes → ℕ → Option ℕ
last_index [] b = none
last_index (c ∷ s) b = elim (last_index s b) [
  | some i ↦ some (suc i)
  | none ↦ if c == b then some 0 else none
]

-- strings.HasSuffix
unfoldable pub has_suffix : Bytes → Bytes → Bool
unfolding has_prefix
has_suffix s t = has_prefix (reverse s) (reverse t)

-- strings.TrimPrefix
unfoldable pub trim_prefix : Bytes → Bytes → Bytes
unfolding has_prefix
trim_prefix s t = if has_prefix s t then drop (length t) s else s
