-- ===== src/Quota.antt =====
-- adapters/quota-memory/quota_manager.go: usage counters of a tenant and a quota type. A time is its
-- nanoseconds since an origin before every time; a call reads the clock once. The locks make a call
-- one step. `resets`, which nothing reads or writes, is left out.
pub mod Laws
use tenantkit.Prelude.{
  ℕ, zero, suc, ◌+◌, ◌-◌, ◌*◌, ◌/◌, ◌%◌, ◌^◌, ◌≤◌, ◌<◌, min, ◌≡◌, refl, sym, ap, ◌∙◌, subst, ◌≢◌,
  ◌↔◌, ◌⊎◌, inl, inr, Bool, true, false, not, ◌&&◌, ◌||◌, Option, none, some, List, [], ◌∷◌, ◌++◌,
  map, foldr, reverse, append-nil, append_assoc, arith, ltb, leb, ◌==◌, if◌then◌else◌, Bool-cases,
  Option-cases, length, get_elem?, take, drop, replicate, any, All, length-append, take-append-drop,
  length-take, length-drop, length-replicate, take-append_left, drop-append_left,
  get_elem?-append_at, All-append, length-map, Result, ok, err, panic, ◌>>=◌, ok-injective,
  >>=-eq-ok, ℤ, pos, negsuc, is_negative, is_at_most_zero, magnitude,
}
use tenantkit.Assoc.{lookup, insert, text_eq}
use tenantkit.Decimal.{word_bound, int_bound}
use tenantkit.Domain.{GoContext, Context, DomainError, quota_exceeded, from_go_context}
use tenantkit.Limiter.{day}
use tenantkit.Text.{Bytes, codes, bytes_eq}
use tenantkit.Word.{add, sub, less, at_most}

pub record QuotaUsage : Type 0 where
  pub used : ℕ
  pub limit : ℕ
  pub period : Bytes
  pub start : ℕ

pub record QuotaManager : Type 0 where
  pub limits : List (Bytes × ℕ)
  pub usage : List (Bytes × QuotaUsage)
  pub last_run : List (Bytes × ℕ)

-- The errors that the manager makes, and those of the domain.
pub data QuotaError : Type 0 where
  negative_amount limit_not_positive : QuotaError
  unknown_quota_type : Bytes → QuotaError
  domain_error : DomainError → QuotaError

unfoldable pub new_quota_manager : QuotaManager
new_quota_manager = record {
  limits =
      (codes "api_requests_monthly", 100_000)
      ∷ (codes "api_requests_daily", 5_000)
      ∷ (codes "database_rows", 1_000_000)
      ∷ (codes "storage_bytes", 1_073_741_824)
      ∷ [];
  usage = [];
  last_run = [];
}

unfoldable pub tenant_id_of : Result DomainError Context → Bytes
tenant_id_of (ok tc) = tc.tenant_id.value
tenant_id_of (err e) = codes "default-tenant"
tenant_id_of panic = codes "default-tenant"

-- `fmt.Sprintf("%s:%s", getTenantIDFromContext(ctx), quotaType)`
unfoldable pub usage_key : GoContext → Bytes → Bytes
unfolding tenant_id_of from_go_context
usage_key ctx quota_type = tenant_id_of (from_go_context (some ctx)) ++ (b':' ∷ quota_type)

-- `getPeriodForQuotaType`
unfoldable pub period_for : Bytes → Bytes
unfolding bytes_eq
period_for quota_type =
    if bytes_eq quota_type (codes "api_requests_daily")
    then codes "daily"
    else if bytes_eq quota_type (codes "api_requests_monthly")
    then codes "monthly"
    else codes "short"

unfoldable pub should_reset_quota : ℕ → QuotaUsage → Bool
unfolding bytes_eq
should_reset_quota now usage =
    if bytes_eq usage.period (codes "short")
    then leb (usage.start + 100_000_000) now
    else if bytes_eq usage.period (codes "daily")
    then leb (usage.start + day) now
    else if bytes_eq usage.period (codes "monthly")
    then leb (usage.start + 30 * day) now
    else false

-- Whether an amount fits: of the usage, or of the limit where there is none.
unfoldable pub fits_usage : ℕ → ℕ → Option QuotaUsage → Bool
unfolding add at_most
fits_usage amount limit none = at_most amount limit
fits_usage amount limit (some usage) = at_most (add usage.used amount) usage.limit

unfoldable pub check_quota : QuotaManager → GoContext → Bytes → ℕ → Result QuotaError Bool
unfolding less fits_usage
check_quota q ctx quota_type amount =
    if less amount 0 then err negative_amount else elim (lookup quota_type q.limits) [
      | none ↦ err (unknown_quota_type quota_type)
      | some limit ↦ ok (fits_usage amount limit (lookup (usage_key ctx quota_type) q.usage))
    ]

-- The usage that `ConsumeQuota` counts on: a new one, or the old one, reset if its period is over.
unfoldable pub current_usage : ℕ → Bytes → Option ℕ → Option QuotaUsage → QuotaUsage
unfolding period_for should_reset_quota
current_usage now quota_type limit none = record {
  used = 0;
  limit = elim limit [ none ↦ 9_223_372_036_854_775_807 | some n ↦ n ];
  period = period_for quota_type;
  start = now;
}
current_usage now quota_type limit (some usage) =
    if should_reset_quota now usage then record usage { used = 0; start = now } else usage

-- The end of `ConsumeQuota`: the usage, and what remains.
unfoldable pub consume : ℕ → QuotaUsage → QuotaUsage × Result QuotaError ℕ
unfolding add sub less
consume amount usage =
    if less usage.limit (add usage.used amount)
    then (usage, err (domain_error quota_exceeded))
    else (
      record usage { used = add usage.used amount },
      ok (sub usage.limit (add usage.used amount)),
    )

-- `usage` points into the map, so what becomes of it is stored.
unfoldable pub consume_quota :
    ℕ → QuotaManager → GoContext → Bytes → ℕ → QuotaManager × Result QuotaError ℕ
unfolding less
consume_quota now q ctx quota_type amount =
    let key = usage_key ctx quota_type in
    let (usage, result) =
      consume amount
        (current_usage now quota_type (lookup quota_type q.limits) (lookup key q.usage)) in
    if less amount 0
    then (q, err negative_amount)
    else (record q { usage = insert key usage q.usage }, result)

-- The usage and its limit, or 0 and the limit of the type; a missing limit reads as 0.
unfoldable pub read_usage : Option QuotaUsage → Option ℕ → ℕ × ℕ
read_usage (some usage) limit = (usage.used, usage.limit)
read_usage none (some limit) = (0, limit)
read_usage none none = (0, 0)

unfoldable pub get_usage : QuotaManager → GoContext → Bytes → ℕ × ℕ
unfolding read_usage
get_usage q ctx quota_type =
    read_usage (lookup (usage_key ctx quota_type) q.usage) (lookup quota_type q.limits)

unfoldable pub reset_quota : ℕ → QuotaManager → GoContext → Bytes → QuotaManager
reset_quota now q ctx quota_type =
    let key = usage_key ctx quota_type in
    elim (lookup key q.usage) [
      | none ↦ q
      | some usage ↦ record q {
        usage = insert key (record usage { used = 0; start = now }) q.usage;
        last_run = insert quota_type now q.last_run;
      }
    ]

unfoldable pub set_limit : QuotaManager → GoContext → Bytes → ℕ → Result QuotaError QuotaManager
unfolding at_most
set_limit q ctx quota_type limit =
    let key = usage_key ctx quota_type in
    if at_most limit 0
    then err limit_not_positive
    else ok (record q {
      limits = insert quota_type limit q.limits;
      usage = elim (lookup key q.usage) [
        | none ↦ q.usage
        | some usage ↦ insert key (record usage { limit = limit }) q.usage
      ];
    })

-- The loop of BulkResetQuotas; `ResetQuota` returns no error.
unfoldable pub bulk_reset_quotas : ℕ → QuotaManager → GoContext → List Bytes → QuotaManager
bulk_reset_quotas now q ctx [] = q
bulk_reset_quotas now q ctx (quota_type ∷ quota_types) =
    bulk_reset_quotas now (reset_quota now q ctx quota_type) ctx quota_types

-- A quota type with the tenant's usage and the limit of the type.
abbrev usage_of : QuotaManager → GoContext → Bytes × ℕ → Bytes × (ℕ × ℕ)
usage_of q ctx (quota_type, limit) = elim (lookup (usage_key ctx quota_type) q.usage) [
  | none ↦ (quota_type, (0, limit))
  | some usage ↦ (quota_type, (usage.used, limit))
]

unfoldable pub get_all_quotas : QuotaManager → GoContext → List (Bytes × (ℕ × ℕ))
get_all_quotas q ctx = map (usage_of q ctx) q.limits

-- The numbers of quota types and of active quotas, and the total usage.
unfoldable pub get_stats : QuotaManager → ℕ × ℕ × ℕ
get_stats q =
    (length q.limits, length q.usage, foldr (λ slot total. add total slot.1.used) 0 q.usage)
