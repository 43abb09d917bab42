-- ===== src/Redis/Limiter.antt =====
-- adapters/limiter-redis/limiter-redis.go: the three algorithms as Lua scripts, and the limiter that
-- runs them. A call reads the clock once, and the clocks of the instances do not go back.
pub mod Fixed
pub mod Tokens
pub mod Bucket
pub mod Sliding
use tenantkit.Prelude.{
  ℕ, zero, suc, ◌+◌, ◌-◌, ◌*◌, ◌/◌, ◌%◌, ◌^◌, ◌≤◌, ◌<◌, min, ◌≡◌, refl, sym, ap, ◌∙◌, subst, ◌≢◌,
  ◌↔◌, ◌⊎◌, inl, inr, Bool, true, false, not, ◌&&◌, ◌||◌, Option, none, some, List, [], ◌∷◌, ◌++◌,
  map, foldr, reverse, append-nil, append_assoc, arith, ltb, leb, ◌==◌, if◌then◌else◌, Bool-cases,
  Option-cases, length, get_elem?, take, drop, replicate, any, All, length-append, take-append-drop,
  length-take, length-drop, length-replicate, take-append_left, drop-append_left,
  get_elem?-append_at, All-append, length-map, Result, ok, err, panic, ◌>>=◌, ok-injective,
  >>=-eq-ok, ℤ, pos, negsuc, is_negative, is_at_most_zero, magnitude,
}
use tenantkit.Assoc.{insert, delete_where, text_eq}
use tenantkit.Decimal.{show}
use tenantkit.Redis.{Redis, Stored, number, opaque, count_of, difference, lua_sum, lua_difference}
use tenantkit.Text.{Bytes, codes, bytes_eq}

-- The commands for hashes and sorted sets. A bucket is its two fields, tokens and last_update; a
-- sorted set is its members with their scores.
pub record Structures (r : Redis) : Type 0 where
  pub hmget : r.State → Bytes → Option (ℕ × ℕ)
  pub hmset : r.State → Bytes → ℕ × ℕ → r.State
  pub zset : r.State → Bytes → List (Bytes × ℕ)
  -- ZREMRANGEBYSCORE key 0 (now - span)
  pub zrem : r.State → Bytes → ℕ → ℕ → r.State
  pub zadd : r.State → Bytes → ℕ → Bytes → r.State
  pub hmget-hmset :
      (s : r.State) (k j : Bytes) (v : ℕ × ℕ)
      → hmget (hmset s k v) j ≡ (if bytes_eq k j then some v else hmget s j)
  pub hmget-expire :
      (s : r.State) (k j : Bytes) (ttl : ℕ)
      → hmget (r.expire s k ttl) j ≡ (if bytes_eq k j && ttl == 0 then none else hmget s j)
  pub zset-zrem :
      (s : r.State) (k : Bytes) (now span : ℕ)
      → zset (zrem s k now span) k ≡ delete_where (λ score. leb (score + span) now) (zset s k)
  pub zset-zadd :
      (s : r.State) (k : Bytes) (score : ℕ) (member : Bytes)
      → zset (zadd s k score member) k ≡ insert member score (zset s k)
  pub zset-expire :
      (s : r.State) (k : Bytes) (ttl : ℕ)
      → zset (r.expire s k ttl) k ≡ (if ttl == 0 then [] else zset s k)

pub data Algorithm : Type 0 where
  token_bucket fixed_window sliding_window : Algorithm

pub data LimiterError : Type 0 where
  nil_client no_address limit_not_positive window_not_positive unsupported_algorithm : LimiterError
  n_not_positive script_failed unparsed : LimiterError
  redis_failed : ℕ → LimiterError

unfoldable pub algorithm_of : Bytes → Option Algorithm
algorithm_of name =
    if bytes_eq name [] || bytes_eq name (codes "token_bucket")
    then some token_bucket
    else if bytes_eq name (codes "fixed_window")
    then some fixed_window
    else if bytes_eq name (codes "sliding_window")
    then some sliding_window
    else none

pub record Config : Type 0 where
  pub redis_addr : Bytes
  pub algorithm : Bytes
  pub limit : ℤ
  pub window : ℤ

pub record LimiterRedis : Type 0 where
  pub owns_conn : Bool
  pub algorithm : Algorithm
  pub limit : ℕ
  pub window : ℕ

-- The checks of both constructors; `failed` is the error of the ping, if any.
unfoldable pub checked : Bool → Option ℕ → Config → Result LimiterError LimiterRedis
checked owns failed config =
    if is_at_most_zero config.limit
    then err limit_not_positive
    else if is_at_most_zero config.window
    then err window_not_positive
    else elim (algorithm_of config.algorithm) [
      | none ↦ err unsupported_algorithm
      | some algorithm ↦ elim failed [
        | some e ↦ err (redis_failed e)
        | none ↦ ok (record {
          owns_conn = owns;
          algorithm = algorithm;
          limit = magnitude config.limit;
          window = magnitude config.window;
        })
      ]
    ]

-- `given` is false for a nil client.
unfoldable pub new : Bool → Option ℕ → Config → Result LimiterError LimiterRedis
new given failed config = if given then checked false failed config else err nil_client

unfoldable pub new_limiter_redis : Option ℕ → Config → Result LimiterError LimiterRedis
new_limiter_redis failed config =
    if bytes_eq config.redis_addr [] then err no_address else checked true failed config

-- `int64(lr.window.Seconds())`
unfoldable pub window_seconds : LimiterRedis → ℕ
window_seconds lr = lr.window / 1_000_000_000

-- What a script computes of Lua numbers.
module _ (r : Redis) where
  -- `math.min(limit, tokens + math.floor(elapsed * limit / window))`; with a window of 0 the quotient
  -- is infinite or no number, and the minimum is the limit.
  unfoldable pub refilled : ℕ → ℕ → ℕ → ℕ → ℕ
  refilled limit window elapsed tokens =
      let refill = r.floor_div (r.double (elapsed * limit)) window in
      if window == 0 then limit else min limit (r.double (tokens + refill))

  -- The bucket of a key, full where there is none.
  unfoldable pub tokens_of : ℕ → ℕ → ℕ → Option (ℕ × ℕ) → ℕ
  tokens_of limit now window none = refilled limit window 0 limit
  tokens_of limit now window (some (tokens, last_update)) =
      refilled limit window (r.double (now - last_update)) tokens

abbrev pub Reply : Type 0
Reply = Result LimiterError (Bool × ℤ)

module _ (r : Redis) (c : Structures r) where
  unfoldable pub token_bucket_script : r.State → Bytes → ℕ → ℕ → ℕ → ℕ → r.State × Reply
  token_bucket_script s key limit now window requested =
      let asked = r.double requested in
      let time = r.double now in
      let tokens = tokens_of r (r.double limit) time (r.double window) (c.hmget s key) in
      let left = r.double (tokens - asked) in
      if leb asked tokens
      then (r.expire (c.hmset s key (left, time)) key (r.double window), ok (true, pos left))
      else (s, ok (false, pos tokens))

  -- What follows the GET of the script.
  unfoldable pub fixed_current : r.State → Bytes → ℕ → ℕ → ℕ → Option ℕ → r.State × Reply
  fixed_current s key limit window requested none = (s, err script_failed)
  fixed_current s key limit window requested (some current) =
      let (counted, reply) = r.incr_by s key (r.double requested) in
      if leb (lua_sum r current requested) (r.double limit)
      then elim reply [
        | none ↦ (counted, err script_failed)
        | some new_count ↦ (
          if r.double new_count == r.double requested then r.expire counted key window else counted,
          ok (true, lua_difference r limit new_count),
        )
      ]
      else (s, ok (false, lua_difference r limit current))

  unfoldable pub fixed_window_script : r.State → Bytes → ℕ → ℕ → ℕ → r.State × Reply
  fixed_window_script s key limit window requested =
      fixed_current s key limit window requested (count_of (r.get s key))

  -- The loop `for i = 1, requested`.
  unfoldable pub add_members : r.State → Bytes → ℕ → ℕ → r.State
  add_members s key now zero = s
  add_members s key now (suc i) =
      c.zadd (add_members s key now i) key now (show now ++ (b':' ∷ show (suc i)))

  -- Its counts are sizes of sets, and its numbers are taken to be exact.
  unfoldable pub sliding_window_script : r.State → Bytes → ℕ → ℕ → ℕ → ℕ → r.State × Reply
  sliding_window_script s key limit window now requested =
      let kept = c.zrem s key now (window * 1000) in
      let current = length (c.zset kept key) in
      let added = r.expire (add_members kept key now requested) key (window * 2) in
      if leb (current + requested) limit
      then (added, ok (true, difference limit (length (c.zset added key))))
      else (kept, ok (false, difference limit current))

  -- A clock gives seconds and milliseconds. `failed` is the error of the script's run, if any.
  unfoldable pub run_script : LimiterRedis → ℕ → r.State → Bytes → ℕ → r.State × Reply
  run_script lr now_ms s key n = elim lr.algorithm [
    | token_bucket ↦ token_bucket_script s key lr.limit (now_ms / 1000) (window_seconds lr) n
    | fixed_window ↦ fixed_window_script s key lr.limit (window_seconds lr) n
    | sliding_window ↦ sliding_window_script s key lr.limit (window_seconds lr) now_ms n
  ]

  unfoldable pub allowed_of : Reply → Result LimiterError Bool
  allowed_of (ok (allowed, left)) = ok allowed
  allowed_of (err e) = err e
  allowed_of panic = panic

  unfoldable pub allow_n :
      LimiterRedis → Option ℕ → ℕ → r.State → Bytes → ℤ → r.State × Result LimiterError Bool
  allow_n lr (some e) now_ms s key n =
      if is_at_most_zero n then (s, err n_not_positive) else (s, err (redis_failed e))
  allow_n lr none now_ms s key n =
      let (after, reply) = run_script lr now_ms s key (magnitude n) in
      if is_at_most_zero n then (s, err n_not_positive) else (after, allowed_of reply)

  unfoldable pub allow :
      LimiterRedis → Option ℕ → ℕ → r.State → Bytes → r.State × Result LimiterError Bool
  allow lr failed now_ms s key = allow_n lr failed now_ms s key (pos 1)

  -- `limit - current`, at least 0
  unfoldable pub left_of : ℕ → Option Stored → Result LimiterError ℕ
  left_of limit none = ok limit
  left_of limit (some (number current)) = ok (limit - current)
  left_of limit (some opaque) = err unparsed

  unfoldable pub tokens_left : ℕ → Option (ℕ × ℕ) → ℕ
  tokens_left limit none = limit
  tokens_left limit (some (tokens, last_update)) = tokens

  -- What remains of a sliding window is counted after the old entries are removed.
  unfoldable pub remaining :
      LimiterRedis → Option ℕ → ℕ → r.State → Bytes → r.State × Result LimiterError ℕ
  remaining lr (some e) now_ms s key = (s, err (redis_failed e))
  remaining lr none now_ms s key = elim lr.algorithm [
    | token_bucket ↦ (s, ok (tokens_left lr.limit (c.hmget s key)))
    | fixed_window ↦ (s, left_of lr.limit (r.get s key))
    | sliding_window ↦
        let kept = c.zrem s key now_ms (window_seconds lr * 1000) in
        (kept, ok (lr.limit - length (c.zset kept key)))
  ]

  unfoldable pub reset : Option ℕ → r.State → Bytes → r.State × Result LimiterError (Unit {0})
  reset (some e) s key = (s, err (redis_failed e))
  reset none s key = (r.del s key, ok tt)

-- Whether Close closes the client.
unfoldable pub closes : LimiterRedis → Bool
closes lr = lr.owns_conn
