-- ===== src/Tests/Quotas.antt =====
-- Runs of the quota manager and of the enforcer.
use tenantkit.Prelude.{◌≡◌, refl, ◌≢◌, inl, inr, true, false, some, [], ◌∷◌, arith, ok}
use tenantkit.Tests.{deletion, running}
use tenantkit.Assoc.{lookup, text_eq}
use tenantkit.Domain.{GoContext, Context, from_go_context, to_go_context, all_id_bytes, value_of}
use tenantkit.Enforcer.{
  enforce_query, enforce_context, first_dangerous, validate_query, rewrite_query, with_condition,
  before_clause,
}
use tenantkit.Enforcer.Laws.{IsFiltered}
use tenantkit.Inject.Flat.{IsClosed, scan, IsFlat, is_flat, allowed, step, is_outside}
use tenantkit.Quota.{
  QuotaManager, consume_quota, check_quota, fits_usage, get_usage, usage_key, tenant_id_of,
  should_reset_quota, current_usage,
}
use tenantkit.Quota.Laws.{
  usage_now, is_ok, IsConsumed, IsCurrent, consume_quota-IsConsumed, check_quota-consume_quota,
  consume_quota-other_tenant,
}
use tenantkit.Text.{count, Bytes, codes, trim_space}

abbrev pub acme_context : Context
acme_context = record {
  tenant_id = record { value = codes "acme" };
  user_id = codes "u1";
  request_id = codes "r1";
  timestamp = 5;
}

abbrev pub acme : GoContext
acme = to_go_context acme_context []

abbrev globex : GoContext
globex = to_go_context (record acme_context { tenant_id = record { value = codes "globex" } }) []

abbrev daily : Bytes
daily = codes "api_requests_daily"

abbrev quotas : QuotaManager
quotas = record {
  limits = (daily, 10) ∷ [];
  usage =
      (
        codes "acme:api_requests_daily",
        record { used = 4; limit = 10; period = codes "daily"; start = 0 },
      )
      ∷ [];
  last_run = [];
}

unfoldable pub counting : Unit {0}
unfolding running usage_key tenant_id_of from_go_context to_go_context value_of should_reset_quota
    current_usage lookup check_quota fits_usage all_id_bytes enforce_query enforce_context
    validate_query first_dangerous rewrite_query with_condition before_clause
counting = tt

quotas-used : (usage_now 9 quotas acme daily).used ≡ 4
unfolding counting
quotas-used = refl

quotas-limit : (usage_now 9 quotas acme daily).limit ≡ 10
unfolding counting
quotas-limit = refl

consume_quota-IsConsumed_example :
    IsConsumed 6
      (usage_now 9 quotas acme daily)
      (get_usage (consume_quota 9 quotas acme daily 6).0 acme daily)
      (consume_quota 9 quotas acme daily 6).1
consume_quota-IsConsumed_example =
    consume_quota-IsConsumed 9 quotas acme daily 6 (rw quotas-used (omega arith))
      (rw quotas-limit (omega arith))

quotas-IsCurrent : IsCurrent 9 (lookup (usage_key acme daily) quotas.usage)
unfolding counting
quotas-IsCurrent = refl

quotas-checked : check_quota quotas acme daily 7 ≡ ok false
unfolding counting
quotas-checked = refl

check_quota-consume_quota_example : is_ok (consume_quota 9 quotas acme daily 7).1 ≡ false
check_quota-consume_quota_example =
    check_quota-consume_quota 9 quotas acme daily 7 false quotas-IsCurrent (omega arith)
      quotas-checked

acme-bytes : all_id_bytes (tenant_id_of (from_go_context (some acme))) ≡ true
unfolding counting
acme-bytes = refl

globex-bytes : all_id_bytes (tenant_id_of (from_go_context (some globex))) ≡ true
unfolding counting
globex-bytes = refl

acme-not-globex :
    tenant_id_of (from_go_context (some acme)) ≢ tenant_id_of (from_go_context (some globex))
unfolding counting
acme-not-globex e = absurd cc

consume_quota-other_tenant_example :
    get_usage (consume_quota 9 quotas acme daily 6).0 globex daily ≡ get_usage quotas globex daily
consume_quota-other_tenant_example =
    consume_quota-other_tenant 9 quotas acme globex daily daily 6 acme-bytes globex-bytes
      acme-not-globex

pub acme-found : from_go_context (some acme) ≡ ok acme_context
unfolding counting
acme-found = refl

pub deletion-trimmed : trim_space deletion ≡ deletion
unfolding counting
deletion-trimmed = refl

pub deletion-IsFlat : IsFlat deletion
unfolding counting is_flat allowed step is_outside
deletion-IsFlat = refl

pub column-IsClosed : IsClosed (codes "tenant_id")
unfolding counting step scan
column-IsClosed = refl

pub unquoted : count b'\'' (codes "acme") ≡ 0
unfolding count
unquoted = refl

pub deletion-IsFiltered : IsFiltered deletion
unfolding counting
deletion-IsFiltered = inr (inl refl)

abbrev pub enforced : Bytes
enforced = codes "DELETE FROM users WHERE tenant_id = 'acme' AND (id = $1)"
