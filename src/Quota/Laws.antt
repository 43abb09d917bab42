-- ===== src/Quota/Laws.antt =====
-- What a call of ConsumeQuota counts, and for whom.
use tenantkit.Prelude.{
  ℕ, ◌+◌, ◌-◌, ◌≤◌, ◌<◌, ◌≡◌, refl, ap, ◌∙◌, ◌≢◌, inl, inr, Bool, true, false, Option, none, some,
  [], ◌∷◌, ◌++◌, arith, ltb, Bool-cases, Option-cases, Result, ok, err, panic, ok-injective,
}
use tenantkit.Assoc.{lookup, text_eq}
use tenantkit.Assoc.Laws.{lookup-insert, lookup-insert_self}
use tenantkit.Decimal.{int_bound}
use tenantkit.Domain.{GoContext, quota_exceeded, from_go_context, is_id_byte, all_id_bytes}
use tenantkit.Quota.{
  QuotaManager, QuotaUsage, QuotaError, domain_error, usage_key, tenant_id_of, current_usage,
  consume, consume_quota, check_quota, fits_usage, get_usage, should_reset_quota, read_usage,
}
use tenantkit.Text.{Bytes, bytes_eq}
use tenantkit.Text.Equality.{bytes_eq_iff}
use tenantkit.Word.{less, at_most, add-small, sub-small, less-small, less-negative}

-- The usage that a call counts on.
abbrev pub usage_now : ℕ → QuotaManager → GoContext → Bytes → QuotaUsage
usage_now now q ctx quota_type =
    current_usage now quota_type (lookup quota_type q.limits)
      (lookup (usage_key ctx quota_type) q.usage)

abbrev pub is_ok {ℓ κ} : {E : Type ℓ} {A : Type κ} → Result E A → Bool
is_ok (ok a) = true
is_ok (err e) = false
is_ok panic = false

not-negative : (n : ℕ) → n < int_bound → less n 0 ≡ false
not-negative n h = less-small n 0 h (omega arith) ∙ ground arith

-- The two ends of a call on a usage.
pub data IsConsumed (amount : ℕ) (u : QuotaUsage) (after : ℕ × ℕ) (r : Result QuotaError ℕ)
    : Type 0 where
  granted :
      u.used + amount ≤ u.limit
      → after ≡ (u.used + amount, u.limit)
      → r ≡ ok (u.limit - (u.used + amount))
      → IsConsumed amount u after r
  exceeded :
      u.limit < u.used + amount
      → after ≡ (u.used, u.limit)
      → r ≡ err (domain_error quota_exceeded)
      → IsConsumed amount u after r

consume-IsConsumed :
    (amount : ℕ) (u : QuotaUsage)
    → u.used + amount < int_bound
    → u.limit < int_bound
    → IsConsumed amount u
        ((consume amount u).0.used, (consume amount u).0.limit)
        (consume amount u).1
unfolding consume
consume-IsConsumed amount u fits small =
    let sum = add-small u.used amount (omega (arith, fits)) in
    let test = less-small u.limit (u.used + amount) small fits in
    elim (Bool-cases (ltb u.limit (u.used + amount))) [
      | inl over ↦ rw (sum, test, over) (exceeded (ground arith) refl refl)
      | inr fit ↦
          let left = sub-small u.limit (u.used + amount) (ground arith) small in
          rw (sum, test, fit) (granted (ground arith) refl (ap ok left))
    ]

-- A call of ConsumeQuota, with an amount that stays below 2^63 with the usage, grants it exactly if
-- with the usage of the period it stays within the limit, counts it and returns the rest of the
-- limit; otherwise it returns ErrQuotaExceeded and counts nothing.
pub consume_quota-IsConsumed :
    (now : ℕ) (q : QuotaManager) (ctx : GoContext) (quota_type : Bytes) (amount : ℕ)
    → (usage_now now q ctx quota_type).used + amount < int_bound
    → (usage_now now q ctx quota_type).limit < int_bound
    → IsConsumed amount
        (usage_now now q ctx quota_type)
        (get_usage (consume_quota now q ctx quota_type amount).0 ctx quota_type)
        (consume_quota now q ctx quota_type amount).1
unfolding consume_quota get_usage read_usage
consume_quota-IsConsumed now q ctx quota_type amount fits small =
    rw
      (
        not-negative amount (omega (arith, fits)),
        lookup-insert_self (usage_key ctx quota_type)
            (consume amount (usage_now now q ctx quota_type)).0 q.usage,
      )
      (consume-IsConsumed amount (usage_now now q ctx quota_type) fits small)

-- No reset is due for the usage.
abbrev pub IsCurrent : ℕ → Option QuotaUsage → Type 0
IsCurrent now none = Unit
IsCurrent now (some usage) = should_reset_quota now usage ≡ false

fits-consume :
    (now : ℕ) (quota_type : Bytes) (limit : ℕ) (o : Option QuotaUsage) (amount : ℕ)
    → IsCurrent now o
    → amount < int_bound
    → is_ok (consume amount (current_usage now quota_type (some limit) o)).1
      ≡ fits_usage amount limit o
unfolding consume current_usage fits_usage at_most less
fits-consume now quota_type limit none amount current h =
    let same = add-small 0 amount (omega (arith, h)) in rw same (ground arith)
fits-consume now quota_type limit (some usage) amount current h = rw current (ground arith)

-- Where no reset is due and the amount is below 2^63, the answer of CheckQuota for a known quota
-- type is whether ConsumeQuota grants the amount.
pub check_quota-consume_quota :
    (now : ℕ) (q : QuotaManager) (ctx : GoContext) (quota_type : Bytes) (amount : ℕ) (answer : Bool)
    → IsCurrent now (lookup (usage_key ctx quota_type) q.usage)
    → amount < int_bound
    → check_quota q ctx quota_type amount ≡ ok answer
    → is_ok (consume_quota now q ctx quota_type amount).1 ≡ answer
unfolding check_quota consume_quota
check_quota-consume_quota now q ctx quota_type amount answer current h checked =
    elim (Option-cases (lookup quota_type q.limits)) [
      | inl unknown ↦ absurd (let bad = rw (not-negative amount h, unknown) at checked in cc)
      | inr (limit, known) ↦
          let said = ok-injective _ answer (rw (not-negative amount h, known) at checked) in
          rw (not-negative amount h, known)
            (fits-consume now quota_type limit (lookup (usage_key ctx quota_type) q.usage) amount
                current h
              ∙ said)
    ]

no_colon : (c : ℕ) → is_id_byte c ≡ true → c ≢ b':'
unfolding is_id_byte
no_colon c h e = absurd (let bad = rw e at h in cc)

split_colon :
    (xs ys s t : Bytes)
    → all_id_bytes xs ≡ true
    → all_id_bytes ys ≡ true
    → xs ++ (b':' ∷ s) ≡ ys ++ (b':' ∷ t)
    → (xs ≡ ys) × (s ≡ t)
unfolding all_id_bytes
split_colon [] [] s t h k e = (refl, cc)
split_colon [] (y ∷ ys) s t h k e = absurd (ground (arith, no_colon y))
split_colon (x ∷ xs) [] s t h k e = absurd (ground (arith, no_colon x))
split_colon (x ∷ xs) (y ∷ ys) s t h k e =
    let (same, rest) = split_colon xs ys s t (ground arith) (ground arith) cc in (cc, rest)

-- Valid tenant ids have no colon, so that two tenants never share a usage.
pub usage_key-injective :
    (ctx other : GoContext) (quota_type other_type : Bytes)
    → all_id_bytes (tenant_id_of (from_go_context (some ctx))) ≡ true
    → all_id_bytes (tenant_id_of (from_go_context (some other))) ≡ true
    → usage_key ctx quota_type ≡ usage_key other other_type
    → (tenant_id_of (from_go_context (some ctx)) ≡ tenant_id_of (from_go_context (some other)))
      × (quota_type ≡ other_type)
unfolding usage_key
usage_key-injective ctx other quota_type other_type h k e =
    split_colon _ _ quota_type other_type h k e

-- A call of ConsumeQuota for one tenant leaves the usage of another, for every quota type, as it
-- was, if their ids have the bytes of valid ids only.
pub consume_quota-other_tenant :
    (now : ℕ) (q : QuotaManager) (ctx other : GoContext) (quota_type other_type : Bytes)
    (amount : ℕ)
    → all_id_bytes (tenant_id_of (from_go_context (some ctx))) ≡ true
    → all_id_bytes (tenant_id_of (from_go_context (some other))) ≡ true
    → tenant_id_of (from_go_context (some ctx)) ≢ tenant_id_of (from_go_context (some other))
    → get_usage (consume_quota now q ctx quota_type amount).0 other other_type
      ≡ get_usage q other other_type
unfolding consume_quota get_usage read_usage
consume_quota-other_tenant now q ctx other quota_type other_type amount h k differs =
    elim (Bool-cases (less amount 0)) [
      | inl negative ↦ rw negative refl
      | inr counted ↦
          rw
            (
              counted,
              lookup-insert (usage_key ctx quota_type) (usage_key other other_type)
                  (consume amount (usage_now now q ctx quota_type)).0 q.usage,
              other_key,
            )
            refl
    ]
  where
    other_key : bytes_eq (usage_key ctx quota_type) (usage_key other other_type) ≡ false
    other_key =
        elim (Bool-cases (bytes_eq (usage_key ctx quota_type) (usage_key other other_type))) [
          | inl same ↦ absurd (
              differs
                (usage_key-injective ctx other quota_type other_type h k
                  ((bytes_eq_iff _ _).0 same)).0)
          | inr n ↦ n
        ]

-- Where the usage and the amount reach 2^63 together, the sum wraps around, and an amount beyond
-- the limit is granted.
pub consume_quota-overflow :
    (now : ℕ) (q : QuotaManager) (ctx : GoContext) (quota_type : Bytes) (amount : ℕ)
    → (usage_now now q ctx quota_type).used < int_bound
    → amount < int_bound
    → int_bound ≤ (usage_now now q ctx quota_type).used + amount
    → (usage_now now q ctx quota_type).limit < int_bound
    → is_ok (consume_quota now q ctx quota_type amount).1 ≡ true
unfolding consume_quota consume
consume_quota-overflow now q ctx quota_type amount small h over fits =
    let sum = add-small (usage_now now q ctx quota_type).used amount (omega (arith, small, h)) in
    let wrapped =
      less-negative ((usage_now now q ctx quota_type).used + amount)
        (usage_now now q ctx quota_type).limit over (omega (arith, small, h)) fits in
    rw (not-negative amount h, sum, wrapped) refl
