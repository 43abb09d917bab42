-- ===== src/Domain/Laws.antt =====
-- Tenant ids and tenant contexts: what validation leaves, and the round trip through a Go context.
use tenantkit.Prelude.{
  ℕ, ◌≤◌, ◌≡◌, refl, ◌⊎◌, true, false, some, [], ◌∷◌, arith, length, All, length-map, ok, >>=-eq-ok,
}
use tenantkit.Domain.{
  Context, all_id_bytes, is_id_byte, new_tenant_id, TenantId, validate_tenant_id, GoContext,
  new_context, from_go_context, to_go_context, matches_id,
}
use tenantkit.Text.{Bytes, lower_byte, to_lower, bytes_eq}
use tenantkit.Text.Case.{to_lower_idem}

-- [a-z0-9._-]
abbrev pub IsIdByte : ℕ → Type 0
IsIdByte c =
    ((b'a' ≤ c) × (c ≤ b'z'))
    ⊎ (((b'0' ≤ c) × (c ≤ b'9')) ⊎ ((c ≡ b'.') ⊎ ((c ≡ b'_') ⊎ (c ≡ b'-'))))

lower_byte-IsIdByte : (c : ℕ) → is_id_byte c ≡ true → IsIdByte (lower_byte c)
unfolding is_id_byte lower_byte
lower_byte-IsIdByte c h = ground arith

to_lower-IsIdByte : (s : Bytes) → all_id_bytes s ≡ true → All IsIdByte (to_lower s)
unfolding all_id_bytes to_lower
to_lower-IsIdByte [] h = tt
to_lower-IsIdByte (c ∷ s) h =
    (lower_byte-IsIdByte c (ground arith), to_lower-IsIdByte s (ground arith))

is_id_byte-lower_byte : (c : ℕ) → is_id_byte c ≡ true → is_id_byte (lower_byte c) ≡ true
unfolding is_id_byte lower_byte
is_id_byte-lower_byte c h = ground arith

all_id_bytes-to_lower : (s : Bytes) → all_id_bytes s ≡ true → all_id_bytes (to_lower s) ≡ true
unfolding all_id_bytes to_lower
all_id_bytes-to_lower [] h = refl
all_id_bytes-to_lower (c ∷ s) h = ground (arith, is_id_byte-lower_byte c, all_id_bytes-to_lower s)

pub record IsAccepted (id : Bytes) (tid : TenantId) : Type 0 where
  pub lower : tid.value ≡ to_lower id
  pub bytes : all_id_bytes id ≡ true
  pub low : 1 ≤ length id
  pub high : length id ≤ 255

pub accepted : (id : Bytes) (tid : TenantId) → new_tenant_id id ≡ ok tid → IsAccepted id tid
unfolding new_tenant_id validate_tenant_id matches_id
accepted [] tid h = absurd (cc)
accepted (c ∷ s) tid h = record {
  lower = ground arith;
  bytes = ground arith;
  low = omega arith;
  high = ground arith;
}

accept_again :
    (id : Bytes)
    → all_id_bytes id ≡ true
    → 1 ≤ length id
    → length id ≤ 255
    → new_tenant_id id ≡ ok (record { value = to_lower id })
unfolding new_tenant_id validate_tenant_id matches_id
accept_again [] b l h = absurd (omega arith)
accept_again (c ∷ s) b l h = ground arith

length-to_lower : (s : Bytes) → length (to_lower s) ≡ length s
unfolding to_lower
length-to_lower s = length-map lower_byte s

-- An accepted id is 1 to 255 bytes long and holds nothing but lower case letters, digits, dots,
-- underscores and dashes; in particular no quote.
pub new_tenant_id-IsIdByte :
    (id : Bytes) (tid : TenantId)
    → new_tenant_id id ≡ ok tid
    → (1 ≤ length tid.value) × (length tid.value ≤ 255) × All IsIdByte tid.value
new_tenant_id-IsIdByte id tid h =
    let a = accepted id tid h in
    rw (a.lower, length-to_lower) (a.low, a.high, to_lower-IsIdByte id a.bytes)

-- Validating an accepted id again gives the same id.
pub new_tenant_id_idempotent :
    (id : Bytes) (tid : TenantId) → new_tenant_id id ≡ ok tid → new_tenant_id tid.value ≡ ok tid
new_tenant_id_idempotent id tid h =
    let a = accepted id tid h in
    let again =
      accept_again (to_lower id) (all_id_bytes-to_lower id a.bytes) (rw length-to_lower a.low)
        (rw length-to_lower a.high) in
    let same : tid ≡ record { value = to_lower id } = λ i. record { value = a.lower i } in
    rw (same, again, to_lower_idem)

pub nonempty_of_new_context :
    (now : ℕ) (tenant_id user_id request_id : Bytes) (c : Context)
    → new_context now tenant_id user_id request_id ≡ ok c
    → 1 ≤ length c.tenant_id.value
unfolding new_context
nonempty_of_new_context now tenant_id user_id request_id c h =
    let (tid, made, rest) = >>=-eq-ok (new_tenant_id tenant_id) _ c h in
    let same : c.tenant_id ≡ tid = ground arith in
    rw same (new_tenant_id-IsIdByte tenant_id tid made).0

pub ne-nil_of_pos : (s : Bytes) → 1 ≤ length s → bytes_eq s [] ≡ false
unfolding bytes_eq
ne-nil_of_pos [] h = absurd (omega arith)
ne-nil_of_pos (c ∷ s) h = refl

-- Every context that NewContext makes comes back out of a Go context, whatever stood there.
pub from-to_go_context :
    (now : ℕ) (tenant_id user_id request_id : Bytes) (c : Context) (ctx : GoContext)
    → new_context now tenant_id user_id request_id ≡ ok c
    → from_go_context (some (to_go_context c ctx)) ≡ ok c
unfolding from_go_context to_go_context
from-to_go_context now tenant_id user_id request_id c ctx h =
    rw (
      ne-nil_of_pos c.tenant_id.value
        (nonempty_of_new_context now tenant_id user_id request_id c h))
