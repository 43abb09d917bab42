-- ===== src/Tests/Shared.antt =====
-- A Redis of association lists, and runs of the quotas, the limiter and the token bucket.
use tenantkit.Prelude.{
  ℕ, ◌+◌, ◌≡◌, refl, sym, ap, ◌∙◌, inl, inr, ◌&&◌, Option, none, some, List, [], arith, leb, ◌==◌,
  if◌then◌else◌, Bool-cases, ◌≤◌, ◌∷◌, ◌*◌, ◌<◌, ltb, ◌/◌, ok, ◌↔◌, ◌-◌, true, false, ◌++◌,
}
use tenantkit.Assoc.{lookup, insert, delete, delete_where, text_eq}
use tenantkit.Assoc.Laws.{lookup-insert, lookup-delete_self, lookup-delete_ne, lookup-insert_self}
use tenantkit.Decimal.{int_bound}
use tenantkit.Redis.{Redis, Stored, number, opaque, count_of}
use tenantkit.Redis.Limiter.{Structures}
use tenantkit.Limiter.{is_due}
use tenantkit.Limiter.TokenBucket.{
  Float, TokenBucket, allow_n, cleanup_if_due, current, refill, take_tokens,
}
use tenantkit.Limiter.TokenBucket.Laws.{allow_n-le-burst}
use tenantkit.Redis.Counter.{Uses}
use tenantkit.Redis.Quota.{
  Config, build_usage_key, build_limit_key, get_tenant_id_from_context, tenant_of, ttl_seconds,
  resolve_limit, limit_of, default_limit,
}
use tenantkit.Redis.Quota.Keys.{build_usage_key_iff}
use tenantkit.Redis.Quota.Rate.{consume_all, consume_all-le-limit}
use tenantkit.Redis.Limiter.Bucket.{bucket_all, IsInOrder, bucket_all-rate}
use tenantkit.Redis.Limiter.Sliding.{sliding_all, sliding_all-unlimited}
use tenantkit.Tests.Quotas.{acme, counting}
use tenantkit.Word.{at_most}
use tenantkit.Text.{Bytes, bytes_eq, codes}
use tenantkit.Text.Equality.{eq_of_bytes_eq, ne_of_bytes_eq}

-- The strings, the hashes and the sorted sets.
record Memory : Type 0 where
  strings : List (Bytes × Stored)
  hashes : List (Bytes × (ℕ × ℕ))
  sets : List (Bytes × List (Bytes × ℕ))

lookup-delete {ℓ} :
    {V : Type ℓ} (k j : Bytes) (m : List (Bytes × V))
    → lookup j (delete k m) ≡ (if bytes_eq k j then none else lookup j m)
lookup-delete k j m = elim (Bool-cases (bytes_eq k j)) [
  | inl e ↦ rw e (rw (eq_of_bytes_eq k j e) (lookup-delete_self j m))
  | inr e ↦ rw e (lookup-delete_ne k j m (λ h. ne_of_bytes_eq k j e (sym h)))
]

-- The counter under a key; a text that is no number counts as 0 here.
abbrev value : Option Stored → ℕ
value (some (number n)) = n
value _ = 0

value-count_of : (o : Option Stored) (c : ℕ) → count_of o ≡ some c → value o ≡ c
unfolding count_of
value-count_of none c h = cc
value-count_of (some (number n)) c h = cc
value-count_of (some opaque) c h = absurd (cc)

abbrev removed : Memory → Bytes → Memory
removed s k = record {
  strings = delete k s.strings;
  hashes = delete k s.hashes;
  sets = delete k s.sets;
}

abbrev expired : Memory → Bytes → ℕ → Memory
expired s k ttl = if ttl == 0 then removed s k else s

abbrev members : Option (List (Bytes × ℕ)) → List (Bytes × ℕ)
members none = []
members (some z) = z

-- What a deletion leaves is what an expiry with no time to live leaves.
strings-expired :
    (s : Memory) (k j : Bytes) (ttl : ℕ)
    → lookup j (expired s k ttl).strings
      ≡ (if bytes_eq k j && ttl == 0 then none else lookup j s.strings)
strings-expired s k j ttl = elim (Bool-cases (ttl == 0)) [
  | inl e ↦ rw e (lookup-delete k j s.strings ∙ ground arith)
  | inr e ↦ rw e (ground arith)
]

hashes-expired :
    (s : Memory) (k j : Bytes) (ttl : ℕ)
    → lookup j (expired s k ttl).hashes
      ≡ (if bytes_eq k j && ttl == 0 then none else lookup j s.hashes)
hashes-expired s k j ttl = elim (Bool-cases (ttl == 0)) [
  | inl e ↦ rw e (lookup-delete k j s.hashes ∙ ground arith)
  | inr e ↦ rw e (ground arith)
]

sets-expired :
    (s : Memory) (k : Bytes) (ttl : ℕ)
    → members (lookup k (expired s k ttl).sets)
      ≡ (if ttl == 0 then [] else members (lookup k s.sets))
sets-expired s k ttl = elim (Bool-cases (ttl == 0)) [
  | inl e ↦ rw (e, lookup-delete_self k s.sets) refl
  | inr e ↦ rw e refl
]

set-stored :
    (k : Bytes) (z : List (Bytes × ℕ)) (m : List (Bytes × List (Bytes × ℕ)))
    → members (lookup k (insert k z m)) ≡ z
set-stored k z m = rw lookup-insert_self refl

-- INCRBY, with the error of an int64 that overflows.
abbrev increased : Memory → Bytes → ℕ → Memory × Option ℕ
increased s k n =
    let total = value (lookup k s.strings) + n in
    if ltb total int_bound
    then (record s { strings = insert k (number total) s.strings }, some total)
    else (s, none)

module _ (s : Memory) (k : Bytes) (n c : ℕ) where
  room :
      count_of (lookup k s.strings) ≡ some c
      → c + n < int_bound
      → ltb (value (lookup k s.strings) + n) int_bound ≡ true
  room h fits = ground (arith, value-count_of (lookup k s.strings) c h, fits)

  counted :
      count_of (lookup k s.strings) ≡ some c
      → c + n < int_bound
      → (increased s k n).1 ≡ some (c + n)
  counted h fits =
      rw (room h fits) (ap (λ (v : ℕ). some (v + n)) (value-count_of (lookup k s.strings) c h))

  counted_get :
      (j : Bytes)
      → count_of (lookup k s.strings) ≡ some c
      → c + n < int_bound
      → lookup j (increased s k n).0.strings
        ≡ (if bytes_eq k j then some (number (c + n)) else lookup j s.strings)
  counted_get j h fits =
      rw (room h fits, ← value-count_of (lookup k s.strings) c h) (lookup-insert k j _ s.strings)

abbrev redis : Redis
redis = record {
  State = Memory;
  get = λ s k. lookup k s.strings;
  double = λ n. n;
  floor_div = λ a b. a / b;
  double-exact = λ n h. refl;
  floor_div-exact = λ a b h k p. refl;
  incr_by = increased;
  expire = expired;
  set = λ s k n. record s { strings = insert k (number n) s.strings };
  del = removed;
  incr_by-value = counted;
  get-incr_by = λ s k j n c h fits. counted_get s k n c j h fits;
  get-expire = strings-expired;
  get-set = λ s k j n. lookup-insert k j (number n) s.strings;
  get-del = λ s k j. lookup-delete k j s.strings;
}

abbrev structures : Structures redis
structures = record {
  hmget = λ s k. lookup k s.hashes;
  hmset = λ s k v. record s { hashes = insert k v s.hashes };
  zset = λ s k. members (lookup k s.sets);
  zrem = λ s k now span. record s {
    sets =
        insert k (delete_where (λ score. leb (score + span) now) (members (lookup k s.sets)))
          s.sets;
  };
  zadd = λ s k score member. record s {
    sets = insert k (insert member score (members (lookup k s.sets))) s.sets;
  };
  hmget-hmset = λ s k j v. lookup-insert k j v s.hashes;
  hmget-expire = hashes-expired;
  zset-zrem = λ s k now span. set-stored k _ s.sets;
  zset-zadd = λ s k score member. set-stored k _ s.sets;
  zset-expire = sets-expired;
}

abbrev empty : Memory
empty = record { strings = []; hashes = []; sets = [] }

abbrev daily : Bytes
daily = codes "api_requests_daily"

abbrev config : Config
config = record {
  prefix = codes "quota:";
  limits = (daily, 10) ∷ [];
  reset_ttl = 86_400_000_000_000;
}

abbrev acme_key : Bytes
acme_key = build_usage_key config (codes "acme") daily

serving : Unit {0}
unfolding counting get_tenant_id_from_context tenant_of ttl_seconds resolve_limit limit_of
    default_limit count_of build_usage_key build_limit_key
serving = tt

acme-tenant : get_tenant_id_from_context acme ≡ ok (codes "acme")
unfolding serving
acme-tenant = refl

acme-limit : resolve_limit redis config none empty (codes "acme") daily ≡ ok 10
unfolding serving
acme-limit = refl

ttl-positive : 0 < ttl_seconds config
unfolding serving
ttl-positive = omega arith

nothing-used : Uses redis empty acme_key 0
unfolding serving
nothing-used = refl

-- Of 4, 7 and 6 the second is refused.
abbrev consumption : Memory × ℕ
consumption = consume_all redis config acme daily empty (4 ∷ 7 ∷ 6 ∷ [])

consume_all-le-limit_example :
    Uses redis consumption.0 acme_key (0 + consumption.1) × (0 + consumption.1 ≤ 10)
consume_all-le-limit_example =
    consume_all-le-limit redis config acme daily (codes "acme") 10 0 (4 ∷ 7 ∷ 6 ∷ []) empty
      acme-tenant ttl-positive acme-limit nothing-used (omega arith)
      (omega arith, (omega arith, (omega arith, tt)))

-- The tenant limit has the key of a limit of acme.
abbrev shadowing : Bytes
shadowing = codes "acme:api_requests_daily"

build_usage_key_iff_example :
    ((build_usage_key config (codes "limit") shadowing
        ≡ build_usage_key config (codes "acme") daily)
      ↔ ((codes "limit" ≡ codes "acme") × (shadowing ≡ daily)))
    × ((build_limit_key config (codes "limit") shadowing
          ≡ build_limit_key config (codes "acme") daily)
        ↔ ((codes "limit" ≡ codes "acme") × (shadowing ≡ daily)))
    × ((build_usage_key config (codes "limit") shadowing
          ≡ build_limit_key config (codes "acme") daily)
        ↔ ((codes "limit" ≡ codes "limit") × (shadowing ≡ codes "acme" ++ (b':' ∷ daily))))
build_usage_key_iff_example =
    build_usage_key_iff config (codes "limit") (codes "acme") shadowing daily (ground arith)
      (ground arith)

-- A bucket of 3 tokens a minute, emptied at once and asked again after half a minute.
abbrev calls : List (ℕ × ℕ)
calls = (100, 3) ∷ (101, 1) ∷ (130, 1) ∷ []

calls-IsInOrder : IsInOrder 100 130 calls
calls-IsInOrder = (omega arith, (omega arith, (omega arith, omega arith)))

bucket-absent : structures.hmget empty (codes "acme") ≡ none
unfolding serving
bucket-absent = refl

set-absent : structures.zset empty (codes "acme") ≡ []
unfolding serving
set-absent = refl

bucket_all-rate_example :
    60 * bucket_all redis structures (codes "acme") 3 60 empty calls ≤ (60 + (130 - 100)) * 3
bucket_all-rate_example =
    bucket_all-rate redis structures (codes "acme") 3 60 100 130 empty calls (omega arith)
      (record { window_fits = omega arith; time_fits = omega arith; product_fits = omega arith })
      bucket-absent calls-IsInOrder (omega arith, (omega arith, (omega arith, tt)))

sliding_all-unlimited_example :
    sliding_all redis structures (codes "acme") 2 60 1_700_000_000_123 empty 5 ≡ 5
sliding_all-unlimited_example =
    sliding_all-unlimited redis structures (codes "acme") 2 60 1_700_000_000_123 5 empty
      (omega arith) (omega arith) set-absent

-- Whole numbers in place of the floats.
whole : (x y b : ℕ) → ltb b x ≡ false → ltb y 0 ≡ false → ltb b (x - y) ≡ false
whole x y b h k = ground arith

abbrev numbers : Float
numbers = record {
  F = ℕ;
  of_int = λ n. n;
  to_int = λ x. x;
  seconds = λ n. n / 1_000_000_000;
  add = λ x y. x + y;
  sub = λ x y. x - y;
  mul = λ x y. x * y;
  greater = λ x y. ltb y x;
  reaches = λ x y. leb y x;
  irreflexive = λ x. ground arith;
  sub-le = whole;
  of_int_nonneg = λ n h. ground arith;
  of_int-lt = λ x b n h e l s. ground arith;
}

-- Two tokens a second, five at most.
abbrev bucket : TokenBucket numbers
bucket = record {
  rps = 2;
  burst_size = 5;
  buckets = [];
  window_duration = 3_600_000_000_000;
  last_cleanup_time = 0;
}

four-granted : (allow_n numbers 7 bucket (codes "acme") 4).1 ≡ true
unfolding serving allow_n cleanup_if_due current refill take_tokens is_due at_most
four-granted = refl

allow_n-le-burst_example : ◌≤◌ 4 bucket.burst_size
allow_n-le-burst_example =
    allow_n-le-burst numbers 7 bucket (codes "acme") 4 (omega arith) (omega arith) (omega arith)
      four-granted
