-- ===== src/Redis/Quota/Rate.antt =====
-- Sequences of calls of ConsumeQuota.
use tenantkit.Prelude.{
  ℕ, ◌+◌, ◌/◌, ◌≤◌, ◌<◌, ◌≡◌, refl, ap, inl, inr, false, none, List, [], ◌∷◌, ◌++◌, arith, length,
  length-append, Result, ok, err, panic, ℤ, pos, All,
}
use native.Mathlib.Nat.{add-zero, zero-add, add_assoc}
use tenantkit.Domain.{GoContext}
use tenantkit.Decimal.{int_bound}
use tenantkit.Redis.{Redis, count_of, difference, exact_bound}
use tenantkit.Redis.Quota.{
  Config, QuotaError, build_usage_key, build_limit_key, resolve_limit, run_consume, ttl_seconds,
  resolved, consume_resolved, consume_quota, get_tenant_id_from_context,
}
use tenantkit.Redis.Quota.Laws.{run_consume-Uses}
use tenantkit.Redis.Counter.{Uses, consumed, consumed-get, consumed-gone, consumed-Uses}
use tenantkit.Text.{Bytes, codes, bytes_eq}
use tenantkit.Text.Equality.{bytes_eq-false}

-- The amount of a call that was let through.
abbrev pub granted : ℕ → Result QuotaError ℤ → ℕ
granted amount (ok left) = amount
granted amount (err e) = 0
granted amount panic = 0

-- The state after calls for these amounts, and the sum of what was let through.
unfoldable pub consume_all :
    (r : Redis) → Config → GoContext → Bytes → r.State → List ℕ → r.State × ℕ
consume_all r config ctx quota_type s [] = (s, 0)
consume_all r config ctx quota_type s (amount ∷ amounts) =
    let (after, reply) = consume_quota r config none none s ctx quota_type (pos amount) in
    let (last, total) = consume_all r config ctx quota_type after amounts in
    (last, granted amount reply + total)

-- The two keys of a tenant and a quota type differ.
usage-ne-limit :
    (config : Config) (tenant_id quota_type : Bytes)
    → bytes_eq
        (build_usage_key config tenant_id quota_type)
        (build_limit_key config tenant_id quota_type)
      ≡ false
unfolding build_usage_key build_limit_key
usage-ne-limit config tenant_id quota_type =
    let name = tenant_id ++ (b':' ∷ quota_type) in
    bytes_eq-false (config.prefix ++ name) (config.prefix ++ (codes "limit:" ++ name)) (λ e.
      absurd (
        omega (
          arith,
          ap length e,
          length-append config.prefix name,
          length-append config.prefix (codes "limit:" ++ name),
        )))

module _ (r : Redis) (config : Config) (ctx : GoContext) (quota_type tenant_id : Bytes) (limit : ℕ)
    (found : get_tenant_id_from_context ctx ≡ ok tenant_id) (lasting : 0 < ttl_seconds config) where
  abbrev key : Bytes
  key = build_usage_key config tenant_id quota_type

  abbrev HasLimit : r.State → Type 0
  HasLimit s = resolve_limit r config none s tenant_id quota_type ≡ ok limit

  consume_quota-eq :
      (s : r.State) (amount : ℕ)
      → HasLimit s
      → consume_quota r config none none s ctx quota_type (pos amount)
        ≡ run_consume r none s key limit amount (ttl_seconds config)
  unfolding consume_quota consume_resolved resolved
  consume_quota-eq s amount has = rw (found, has) refl

  consumed-HasLimit :
      (s : r.State) (amount c : ℕ)
      → Uses r s key c
      → c + amount < int_bound
      → HasLimit s
      → HasLimit (consumed r s key amount (ttl_seconds config))
  unfolding resolve_limit
  consumed-HasLimit s amount c uses fits has =
      let same =
        consumed-get r s key (build_limit_key config tenant_id quota_type) amount
          (ttl_seconds config) c lasting uses fits in
      rw (same, usage-ne-limit config tenant_id quota_type) has

  consume_all-total :
      (amounts : List ℕ) (s : r.State) (c : ℕ)
      → Uses r s key c
      → HasLimit s
      → c ≤ limit
      → All (λ amount. limit + amount ≤ exact_bound) amounts
      → Uses r
          (consume_all r config ctx quota_type s amounts).0
          key
          (c + (consume_all r config ctx quota_type s amounts).1)
        × (c + (consume_all r config ctx quota_type s amounts).1 ≤ limit)
  unfolding consume_all
  consume_all-total [] s c uses has fits exact = (rw (add-zero) uses, omega (arith, fits))
  consume_all-total (amount ∷ amounts) s c uses has fits (small, exact) =
      elim (run_consume-Uses r s key limit amount (ttl_seconds config) c uses fits small) [
        | inl (h, e) ↦
            let next = consumed r s key amount (ttl_seconds config) in
            let rest =
              consume_all-total amounts next (c + amount)
                (consumed-Uses r s key amount (ttl_seconds config) c lasting uses
                  (omega (arith, small, fits)))
                (consumed-HasLimit s amount c uses (omega (arith, small, fits)) has) h exact in
            rw (consume_quota-eq s amount has, e, ← add_assoc) rest
        | inr (h, e) ↦
            rw (consume_quota-eq s amount has, e, zero-add)
              (consume_all-total amounts s c uses has fits exact)
      ]

-- Of calls of ConsumeQuota on Redis for one tenant and quota type, before the key expires and where
-- the client fails at none, those that are let through raise the usage by their amounts and never
-- above the limit, if the usage was not above it at the beginning, the limit comes from Redis or
-- the configuration, the time to live is at least a second, and the limit and each amount are at
-- most 2^53 together, where Lua numbers are exact.
pub consume_all-le-limit :
    (r : Redis) (config : Config) (ctx : GoContext) (quota_type tenant_id : Bytes) (limit c : ℕ)
    (amounts : List ℕ) (s : r.State)
    → get_tenant_id_from_context ctx ≡ ok tenant_id
    → 0 < ttl_seconds config
    → resolve_limit r config none s tenant_id quota_type ≡ ok limit
    → Uses r s (build_usage_key config tenant_id quota_type) c
    → c ≤ limit
    → All (λ amount. limit + amount ≤ exact_bound) amounts
    → Uses r
        (consume_all r config ctx quota_type s amounts).0
        (build_usage_key config tenant_id quota_type)
        (c + (consume_all r config ctx quota_type s amounts).1)
      × (c + (consume_all r config ctx quota_type s amounts).1 ≤ limit)
consume_all-le-limit r config ctx quota_type tenant_id limit c amounts s found lasting has uses fits
      exact =
    consume_all-total r config ctx quota_type tenant_id limit found lasting amounts s c uses has
      fits exact

-- With a time to live below a second an amount within the limit is let through on a key that Redis does
-- not have, and Redis does not have it afterwards.
pub consume_quota-short_ttl :
    (r : Redis) (config : Config) (ctx : GoContext) (quota_type tenant_id : Bytes)
    (limit amount : ℕ) (s : r.State)
    → get_tenant_id_from_context ctx ≡ ok tenant_id
    → config.reset_ttl < 1_000_000_000
    → resolve_limit r config none s tenant_id quota_type ≡ ok limit
    → r.get s (build_usage_key config tenant_id quota_type) ≡ none
    → amount ≤ limit
    → limit + amount ≤ exact_bound
    → ((consume_quota r config none none s ctx quota_type (pos amount)).1
        ≡ ok (difference limit amount))
      × (r.get
            (consume_quota r config none none s ctx quota_type (pos amount)).0
            (build_usage_key config tenant_id quota_type)
          ≡ none)
unfolding consume_quota consume_resolved resolved count_of ttl_seconds
consume_quota-short_ttl r config ctx quota_type tenant_id limit amount s found short has fresh fits
      exact =
    let key = build_usage_key config tenant_id quota_type in
    let unused : Uses r s key 0 = rw fresh refl in
    let zero_ttl : config.reset_ttl / 1_000_000_000 ≡ 0 = omega (arith, short) in
    elim (run_consume-Uses r s key limit amount (ttl_seconds config) 0 unused (omega arith) exact) [
      | inl (h, e) ↦
          rw (found, has, e, zero-add)
            (
              refl,
              consumed-gone r s key amount (ttl_seconds config) unused (omega (arith, exact))
                  zero_ttl,
            )
      | inr (h, e) ↦ absurd (omega (arith, h, fits))
    ]
