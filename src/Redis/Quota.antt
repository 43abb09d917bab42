-- ===== src/Redis/Quota.antt =====
-- adapters/quota-redis/quota_manager.go: the quotas in Redis. The amounts are those that the guard for
-- negative amounts lets through, and the default limits are not negative. `failed` is the error of a
-- call of the client, if any.
pub mod Laws
pub mod Keys
pub mod Rate
use tenantkit.Prelude.{
  ℕ, zero, suc, ◌+◌, ◌-◌, ◌*◌, ◌/◌, ◌%◌, ◌^◌, ◌≤◌, ◌<◌, min, ◌≡◌, refl, sym, ap, ◌∙◌, subst, ◌≢◌,
  ◌↔◌, ◌⊎◌, inl, inr, Bool, true, false, not, ◌&&◌, ◌||◌, Option, none, some, List, [], ◌∷◌, ◌++◌,
  map, foldr, reverse, append-nil, append_assoc, arith, ltb, leb, ◌==◌, if◌then◌else◌, Bool-cases,
  Option-cases, length, get_elem?, take, drop, replicate, any, All, length-append, take-append-drop,
  length-take, length-drop, length-replicate, take-append_left, drop-append_left,
  get_elem?-append_at, All-append, length-map, Result, ok, err, panic, ◌>>=◌, ok-injective,
  >>=-eq-ok, ℤ, pos, negsuc, is_negative, is_at_most_zero, magnitude,
}
use tenantkit.Assoc.{lookup, text_eq}
use tenantkit.Domain.{GoContext, Context, DomainError, from_go_context}
use tenantkit.Redis.{Redis, Stored, number, opaque, count_of, lua_sum, lua_difference}
use tenantkit.Text.{Bytes, codes, bytes_eq}

pub record Config : Type 0 where
  pub prefix : Bytes
  pub limits : List (Bytes × ℕ)
  pub reset_ttl : ℕ

pub data QuotaError : Type 0 where
  nil_client negative_amount negative_limit tenant_required : QuotaError
  unknown_quota_type : Bytes → QuotaError
  redis_failed : ℕ → QuotaError
  script_failed unparsed : QuotaError
  -- With the remaining amount that is returned beside the error.
  exceeded : ℤ → QuotaError

unfoldable pub default_config : Config
default_config = record { prefix = codes "quota:"; limits = []; reset_ttl = 86_400_000_000_000 }

-- `given` is false for a nil client.
unfoldable pub new_redis_quota_manager : Bool → Config → Result QuotaError Config
new_redis_quota_manager given config =
    if given
    then ok (record config {
      prefix = if bytes_eq config.prefix [] then codes "quota:" else config.prefix;
      reset_ttl = if config.reset_ttl == 0 then 86_400_000_000_000 else config.reset_ttl;
    })
    else err nil_client

unfoldable pub build_usage_key : Config → Bytes → Bytes → Bytes
build_usage_key config tenant_id quota_type = config.prefix ++ (tenant_id ++ (b':' ∷ quota_type))

unfoldable pub build_limit_key : Config → Bytes → Bytes → Bytes
build_limit_key config tenant_id quota_type =
    config.prefix ++ (codes "limit:" ++ (tenant_id ++ (b':' ∷ quota_type)))

unfoldable pub tenant_of : Result DomainError Context → Result QuotaError Bytes
tenant_of (ok tc) =
    if bytes_eq tc.tenant_id.value [] then err tenant_required else ok tc.tenant_id.value
tenant_of (err e) = err tenant_required
tenant_of panic = panic

unfoldable pub get_tenant_id_from_context : GoContext → Result QuotaError Bytes
get_tenant_id_from_context ctx = tenant_of (from_go_context (some ctx))

unfoldable pub default_limit : Config → Bytes → Result QuotaError ℕ
default_limit config quota_type = elim (lookup quota_type config.limits) [
  | some limit ↦ ok limit
  | none ↦ err (unknown_quota_type quota_type)
]

-- The limit under the key of the tenant, else the default: also where the call fails.
unfoldable pub limit_of : Config → Bytes → Option ℕ → Option Stored → Result QuotaError ℕ
limit_of config quota_type none (some (number limit)) = ok limit
limit_of config quota_type none (some opaque) = default_limit config quota_type
limit_of config quota_type none none = default_limit config quota_type
limit_of config quota_type (some e) reply = default_limit config quota_type

-- `int64(ResetTTL.Seconds())`
unfoldable pub ttl_seconds : Config → ℕ
ttl_seconds config = config.reset_ttl / 1_000_000_000

module _ (r : Redis) where
  unfoldable pub resolve_limit : Config → Option ℕ → r.State → Bytes → Bytes → Result QuotaError ℕ
  resolve_limit config failed s tenant_id quota_type =
      limit_of config quota_type failed (r.get s (build_limit_key config tenant_id quota_type))

  -- The script for CheckQuota, after its GET.
  unfoldable pub check_current : ℕ → ℕ → Option ℕ → Result QuotaError Bool
  check_current limit amount none = err script_failed
  check_current limit amount (some current) =
      ok (not (ltb (r.double limit) (lua_sum r current amount)))

  unfoldable pub run_check : Option ℕ → r.State → Bytes → ℕ → ℕ → Result QuotaError Bool
  run_check (some e) s key limit amount = err (redis_failed e)
  run_check none s key limit amount = check_current limit amount (count_of (r.get s key))

  -- The script for ConsumeQuota, after its GET: the new state, and the reply.
  unfoldable pub consume_current :
      r.State → Bytes → ℕ → ℕ → ℕ → Option ℕ → r.State × Result QuotaError ℤ
  consume_current s key limit amount ttl none = (s, err script_failed)
  consume_current s key limit amount ttl (some current) =
      let (counted, reply) = r.incr_by s key (r.double amount) in
      if ltb (r.double limit) (lua_sum r current amount)
      then (s, err (exceeded (lua_difference r limit current)))
      else elim reply [
        | none ↦ (counted, err script_failed)
        | some new_usage ↦ (
          if r.double new_usage == r.double amount then r.expire counted key ttl else counted,
          ok (lua_difference r limit new_usage),
        )
      ]

  unfoldable pub run_consume :
      Option ℕ → r.State → Bytes → ℕ → ℕ → ℕ → r.State × Result QuotaError ℤ
  run_consume (some e) s key limit amount ttl = (s, err (redis_failed e))
  run_consume none s key limit amount ttl =
      consume_current s key limit amount ttl (count_of (r.get s key))

  module _ (config : Config) (limit_failed failed : Option ℕ) (s : r.State) where
    -- The tenant and its limit, which each operation asks for first.
    unfoldable pub resolved : GoContext → Bytes → Result QuotaError (Bytes × ℕ)
    resolved ctx quota_type = do
      tenant_id ← get_tenant_id_from_context ctx
      limit ← resolve_limit config limit_failed s tenant_id quota_type
      ok (tenant_id, limit)

    unfoldable pub check_quota : GoContext → Bytes → ℤ → Result QuotaError Bool
    check_quota ctx quota_type (negsuc n) = err negative_amount
    check_quota ctx quota_type (pos amount) = do
      (tenant_id, limit) ← resolved ctx quota_type
      run_check failed s (build_usage_key config tenant_id quota_type) limit amount

    unfoldable pub consume_resolved :
        Bytes → ℕ → Result QuotaError (Bytes × ℕ) → r.State × Result QuotaError ℤ
    consume_resolved quota_type amount (ok t) =
        run_consume failed s (build_usage_key config t.0 quota_type) t.1 amount (ttl_seconds config)
    consume_resolved quota_type amount (err e) = (s, err e)
    consume_resolved quota_type amount panic = (s, panic)

    unfoldable pub consume_quota : GoContext → Bytes → ℤ → r.State × Result QuotaError ℤ
    consume_quota ctx quota_type (negsuc n) = (s, err negative_amount)
    consume_quota ctx quota_type (pos amount) =
        consume_resolved quota_type amount (resolved ctx quota_type)

    -- The reply of GET: the usage and the limit.
    unfoldable pub usage_of : Option ℕ → ℕ → Option Stored → Result QuotaError (ℕ × ℕ)
    usage_of (some e) limit reply = err (redis_failed e)
    usage_of none limit none = ok (0, limit)
    usage_of none limit (some (number used)) = ok (used, limit)
    usage_of none limit (some opaque) = err unparsed

    unfoldable pub get_usage : GoContext → Bytes → Result QuotaError (ℕ × ℕ)
    get_usage ctx quota_type = do
      (tenant_id, limit) ← resolved ctx quota_type
      usage_of failed limit (r.get s (build_usage_key config tenant_id quota_type))

    unfoldable pub reset_of :
        Bytes → Result QuotaError Bytes → r.State × Result QuotaError (Unit {0})
    reset_of quota_type (err e) = (s, err e)
    reset_of quota_type panic = (s, panic)
    reset_of quota_type (ok tenant_id) = elim failed [
      | none ↦ (r.del s (build_usage_key config tenant_id quota_type), ok tt)
      | some e ↦ (s, err (redis_failed e))
    ]

    unfoldable pub reset_quota : GoContext → Bytes → r.State × Result QuotaError (Unit {0})
    reset_quota ctx quota_type = reset_of quota_type (get_tenant_id_from_context ctx)

    unfoldable pub set_limit_of :
        Bytes → ℕ → Result QuotaError Bytes → r.State × Result QuotaError (Unit {0})
    set_limit_of quota_type limit (err e) = (s, err e)
    set_limit_of quota_type limit panic = (s, panic)
    set_limit_of quota_type limit (ok tenant_id) = elim failed [
      | none ↦ (r.set s (build_limit_key config tenant_id quota_type) limit, ok tt)
      | some e ↦ (s, err (redis_failed e))
    ]

    unfoldable pub set_limit : GoContext → Bytes → ℤ → r.State × Result QuotaError (Unit {0})
    set_limit ctx quota_type (negsuc n) = (s, err negative_limit)
    set_limit ctx quota_type (pos limit) =
        set_limit_of quota_type limit (get_tenant_id_from_context ctx)
