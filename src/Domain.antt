-- ===== src/Domain.antt =====
-- Package domain: tenant ids (domain/tenant_id.go), the tenant context and its place in a Go context
-- (domain/context.go), and the errors (domain/errors.go) that the library returns. A Go context is
-- the list of its values, the newest first.
pub mod Laws
use tenantkit.Prelude.{
  ℕ, zero, suc, ◌+◌, ◌-◌, ◌*◌, ◌/◌, ◌%◌, ◌^◌, ◌≤◌, ◌<◌, min, ◌≡◌, refl, sym, ap, ◌∙◌, subst, ◌≢◌,
  ◌↔◌, ◌⊎◌, inl, inr, Bool, true, false, not, ◌&&◌, ◌||◌, Option, none, some, List, [], ◌∷◌, ◌++◌,
  map, foldr, reverse, append-nil, append_assoc, arith, ltb, leb, ◌==◌, if◌then◌else◌, Bool-cases,
  Option-cases, length, get_elem?, take, drop, replicate, any, All, length-append, take-append-drop,
  length-take, length-drop, length-replicate, take-append_left, drop-append_left,
  get_elem?-append_at, All-append, length-map, Result, ok, err, panic, ◌>>=◌, ok-injective,
  >>=-eq-ok, ℤ, pos, negsuc, is_negative, is_at_most_zero, magnitude,
}
use tenantkit.Text.{Bytes, bytes_eq, to_lower}

pub data DomainError : Type 0 where
  tenant_not_found tenant_exists : DomainError
  invalid_context missing_tenant_id missing_user_id missing_request_id : DomainError
  unsafe_query query_parse_failed query_rewrite_failed : DomainError
  storage_not_available transaction_failed cache_not_available : DomainError
  quota_exceeded quota_not_found rate_limit_exceeded invalid_tenant_id : DomainError

pub record TenantId : Type 0 where
  pub value : Bytes

-- [a-zA-Z0-9._-]
unfoldable pub is_id_byte : ℕ → Bool
is_id_byte c =
    (leb b'a' c && leb c b'z')
    || ((leb b'A' c && leb c b'Z')
        || ((leb b'0' c && leb c b'9') || (c == b'.' || (c == b'_' || c == b'-'))))

unfoldable pub all_id_bytes : Bytes → Bool
unfolding is_id_byte
all_id_bytes [] = true
all_id_bytes (c ∷ s) = is_id_byte c && all_id_bytes s

-- The pattern ^[a-zA-Z0-9._-]+$
unfoldable pub matches_id : Bytes → Bool
unfolding all_id_bytes
matches_id [] = false
matches_id (c ∷ s) = all_id_bytes (c ∷ s)

unfoldable pub validate_tenant_id : Bytes → Result DomainError (Unit {0})
unfolding matches_id
validate_tenant_id id =
    if ltb (length id) 1 || ltb 255 (length id)
    then err invalid_tenant_id
    else if matches_id id
    then ok tt
    else err invalid_tenant_id

unfoldable pub new_tenant_id : Bytes → Result DomainError TenantId
unfolding validate_tenant_id to_lower
new_tenant_id id = do _ ← validate_tenant_id id; ok (record { value = to_lower id })

unfoldable pub equal : TenantId → TenantId → Bool
unfolding bytes_eq
equal tid other = bytes_eq tid.value other.value

pub record Context : Type 0 where
  pub tenant_id : TenantId
  pub user_id : Bytes
  pub request_id : Bytes
  pub timestamp : ℕ

-- `now` is the reading of the clock.
unfoldable pub new_context : ℕ → Bytes → Bytes → Bytes → Result DomainError Context
unfolding new_tenant_id bytes_eq
new_context now tenant_id user_id request_id = do
  tid ← new_tenant_id tenant_id
  if bytes_eq user_id []
      then err missing_user_id
      else if bytes_eq request_id []
      then err missing_request_id
      else ok
          (record { tenant_id = tid; user_id = user_id; request_id = request_id; timestamp = now })

unfoldable pub with_user : ℕ → Context → Bytes → Result DomainError Context
unfolding bytes_eq
with_user now c user_id =
    if bytes_eq user_id []
    then err missing_user_id
    else ok (record c { user_id = user_id; timestamp = now })

-- The keys under which the library and others store values: keys of different types differ.
pub data Key : Type 0 where
  tenant_context_key tenant_id_key bypass_key sqlx_skip_key : Key
  foreign : ℕ → Key

-- The values, by their dynamic type.
pub data Any : Type 0 where
  context : Context → Any
  string : Bytes → Any
  boolean : Bool → Any
  opaque_value : ℕ → Any

abbrev pub GoContext : Type 0
GoContext = List (Key × Any)

unfoldable pub same_key : Key → Key → Bool
same_key tenant_context_key tenant_context_key = true
same_key tenant_id_key tenant_id_key = true
same_key bypass_key bypass_key = true
same_key sqlx_skip_key sqlx_skip_key = true
same_key (foreign a) (foreign b) = a == b
same_key _ _ = false

-- context.WithValue, ctx.Value
abbrev pub with_value : GoContext → Key → Any → GoContext
with_value ctx key val = (key, val) ∷ ctx

unfoldable pub value_of : GoContext → Key → Option Any
unfolding same_key
value_of [] key = none
value_of ((k, v) ∷ ctx) key = if same_key k key then some v else value_of ctx key

-- `val.(Context)`, on nil too
unfoldable pub context_of_value : Option Any → Result DomainError Context
unfolding bytes_eq
context_of_value (some (context tc)) =
    if bytes_eq tc.tenant_id.value [] then err missing_tenant_id else ok tc
context_of_value _ = err invalid_context

-- A nil context is `none`.
unfoldable pub from_go_context : Option GoContext → Result DomainError Context
unfolding value_of context_of_value
from_go_context none = err invalid_context
from_go_context (some ctx) = context_of_value (value_of ctx tenant_context_key)

unfoldable pub to_go_context : Context → GoContext → GoContext
to_go_context c ctx = with_value ctx tenant_context_key (context c)
