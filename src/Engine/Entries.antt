-- ===== src/Engine/Entries.antt =====
-- What it is that a stored entry serves a query, and where a hit places its arguments.
use tenantkit.Engine.{Kind, insert, kind_of, cached_args, from_entry, inject_kind}
use tenantkit.Inject.{Value, text, tenant_first, insert_args, set_arg_count, update_args}
use tenantkit.Placeholder.{PlaceholderStyle, question, dollar, colon}
use tenantkit.Prelude.{
  ℕ, ◌-◌, ◌≡◌, ◌≢◌, refl, ap, true, false, inl, inr, List, [], ◌∷◌, ◌++◌, length, replicate,
  length-append, length-replicate, append-nil, arith, ok, ok-injective, Bool-cases, ltb, take, drop,
  take-append-drop,
}
use tenantkit.QueryCache.{Entry, hash_query}
use tenantkit.Tables.{Config}
use tenantkit.Text.{Bytes, codes, to_upper, has_prefix}

-- The entry that a miss stores for a statement that is `n` arguments longer.
abbrev pub entry_of : Bytes → Bytes → ℕ → Entry
entry_of query transformed n = record {
  original_query = query;
  transformed_query = transformed;
  arg_count = n;
  is_tenant_query = true;
  hash = hash_query query;
}

-- The code of a hit cannot place the tenant argument of a numbered INSERT.
abbrev pub IsReusable : PlaceholderStyle → Kind → Type 0
IsReusable question kind = Unit
IsReusable dollar kind = kind ≢ insert
IsReusable colon kind = kind ≢ insert

-- What a hit gives for the entry is what the switch gives, for every tenant and arguments.
abbrev pub Serves : Config → PlaceholderStyle → Bytes → Entry → Type 0
Serves config style query entry =
    (tenant_id : Bytes) (args : List Value)
    → from_entry style tenant_id query args entry
      ≡ inject_kind config style tenant_id (kind_of query) query args

pub length-tenant_first :
    (style : PlaceholderStyle) (n : ℕ) (v : Value) (args : List Value)
    → length (tenant_first style (replicate n v) args) - length args ≡ n
unfolding tenant_first
length-tenant_first question n v args =
    omega (arith, length-append (replicate n v) args, length-replicate n v)
length-tenant_first dollar n v args =
    omega (arith, length-append args (replicate n v), length-replicate n v)
length-tenant_first colon n v args =
    omega (arith, length-append args (replicate n v), length-replicate n v)

-- Away from UPDATE a hit places its arguments as `tenant_first` does.
pub cached_args-first :
    (style : PlaceholderStyle) (tenant_id query : Bytes) (n : ℕ) (args : List Value)
    → has_prefix (to_upper query) (codes "UPDATE") ≡ false
    → cached_args style tenant_id query n args
      ≡ ok (tenant_first style (replicate n (text tenant_id)) args)
unfolding cached_args tenant_first
cached_args-first question tenant_id query n args h = rw h
cached_args-first dollar tenant_id query n args h = refl
cached_args-first colon tenant_id query n args h = refl

-- On UPDATE it places them as `update_args` does.
pub cached_args-update :
    (style : PlaceholderStyle) (tenant_id query : Bytes) (args : List Value)
    → has_prefix (to_upper query) (codes "UPDATE") ≡ true
    → cached_args style tenant_id query 1 args ≡ update_args style tenant_id query args
unfolding cached_args update_args
cached_args-update question tenant_id query args h = rw h
cached_args-update dollar tenant_id query args h = refl
cached_args-update colon tenant_id query args h = refl

pub length-insert_args :
    (n : ℕ) (v : Value) (args new_args : List Value)
    → insert_args n (v ∷ []) args ≡ ok new_args
    → length new_args - length args ≡ 1
unfolding insert_args
length-insert_args n v args new_args h = elim (Bool-cases (ltb (length args) n)) [
  | inl out ↦ absurd (let bad = rw out at h in cc)
  | inr inside ↦
      let same = ok-injective (take n args ++ (v ∷ drop n args)) new_args (rw inside at h) in
      rw (← same) (
        omega (
          arith,
          length-append (take n args) (v ∷ drop n args),
          length-append (take n args) (drop n args),
          ap length (take-append-drop n args),
        ))
]

pub length-update_args :
    (style : PlaceholderStyle) (tenant_id query : Bytes) (args new_args : List Value)
    → update_args style tenant_id query args ≡ ok new_args
    → length new_args - length args ≡ 1
unfolding update_args
length-update_args question tenant_id query args new_args h =
    length-insert_args (set_arg_count query) (text tenant_id) args new_args h
length-update_args dollar tenant_id query args new_args h =
    rw (← ok-injective (args ++ text tenant_id ∷ []) new_args h)
      (omega (arith, length-append args (text tenant_id ∷ [])))
length-update_args colon tenant_id query args new_args h =
    rw (← ok-injective (args ++ text tenant_id ∷ []) new_args h)
      (omega (arith, length-append args (text tenant_id ∷ [])))

pub tenant_first-nil :
    (style : PlaceholderStyle) (args : List Value) → tenant_first style [] args ≡ args
unfolding tenant_first
tenant_first-nil question args = refl
tenant_first-nil dollar args = append-nil args
tenant_first-nil colon args = append-nil args
