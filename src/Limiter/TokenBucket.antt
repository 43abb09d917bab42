-- ===== src/Limiter/TokenBucket.antt =====
-- adapters/limiter-memory/token_bucket.go: tokens that come back at a constant rate. The arithmetic of
-- float64 is a parameter: what the code uses of it, with the laws that it keeps.
pub mod Laws
use tenantkit.Prelude.{
  ℕ, zero, suc, ◌+◌, ◌-◌, ◌*◌, ◌/◌, ◌%◌, ◌^◌, ◌≤◌, ◌<◌, min, ◌≡◌, refl, sym, ap, ◌∙◌, subst, ◌≢◌,
  ◌↔◌, ◌⊎◌, inl, inr, Bool, true, false, not, ◌&&◌, ◌||◌, Option, none, some, List, [], ◌∷◌, ◌++◌,
  map, foldr, reverse, append-nil, append_assoc, arith, ltb, leb, ◌==◌, if◌then◌else◌, Bool-cases,
  Option-cases, length, get_elem?, take, drop, replicate, any, All, length-append, take-append-drop,
  length-take, length-drop, length-replicate, take-append_left, drop-append_left,
  get_elem?-append_at, All-append, length-map, Result, ok, err, panic, ◌>>=◌, ok-injective,
  >>=-eq-ok, ℤ, pos, negsuc, is_negative, is_at_most_zero, magnitude,
}
use tenantkit.Assoc.{lookup, insert, delete, delete_where, text_eq}
use tenantkit.Decimal.{int_bound}
use tenantkit.Limiter.{hour, is_due}
use tenantkit.Text.{Bytes}
use tenantkit.Word.{less, at_most}

-- `greater x y` is `x > y` and `reaches x y` is `x >= y`; both are false where one is not a number.
pub record Float : Type 1 where
  pub F : Type 0
  pub of_int : ℕ → F
  pub to_int : F → ℕ
  pub seconds : ℕ → F
  pub add : F → F → F
  pub sub : F → F → F
  pub mul : F → F → F
  pub greater : F → F → Bool
  pub reaches : F → F → Bool
  pub irreflexive : (x : F) → greater x x ≡ false
  pub sub-le :
      (x y b : F) → greater x b ≡ false → greater (of_int 0) y ≡ false → greater (sub x y) b ≡ false
  pub of_int_nonneg : (n : ℕ) → n < int_bound → greater (of_int 0) (of_int n) ≡ false
  -- Integers below 2^53 are exact.
  pub of_int-lt :
      (x : F) (b n : ℕ)
      → greater x (of_int b) ≡ false
      → b < 9_007_199_254_740_992
      → b < n
      → n < int_bound
      → reaches x (of_int n) ≡ false

module _ (f : Float) where
  open f use {F, of_int, to_int, seconds, add, sub, mul, greater, reaches}

  pub record TokenData : Type 0 where
    pub tokens : F
    pub last_refil : ℕ

  pub record TokenBucket : Type 0 where
    pub rps : F
    pub burst_size : ℕ
    pub buckets : List (Bytes × TokenData)
    pub window_duration : ℕ
    pub last_cleanup_time : ℕ

  unfoldable pub new_token_bucket : ℕ → F → ℕ → TokenBucket
  new_token_bucket now rps burst_size =
      let rate = if greater rps (of_int 0) then rps else of_int 1 in
      record {
        rps = rate;
        burst_size = if less burst_size 1 then to_int rate else burst_size;
        buckets = [];
        window_duration = hour;
        last_cleanup_time = now;
      }

  -- `data.lastRefil.Before(cutoffTime)`
  unfoldable pub is_stale : ℕ → TokenData → Bool
  is_stale now d = ltb (d.last_refil + hour) now

  unfoldable pub cleanup : ℕ → TokenBucket → TokenBucket
  cleanup now tb = record tb { buckets = delete_where (is_stale now) tb.buckets }

  -- `windowDuration` is always an hour.
  unfoldable pub cleanup_if_due : ℕ → TokenBucket → TokenBucket
  cleanup_if_due now tb =
      if is_due tb.last_cleanup_time now
      then record (cleanup now tb) { last_cleanup_time = now }
      else tb

  -- The tokens after the refill, no more than the burst size.
  unfoldable pub refill : ℕ → F → ℕ → TokenData → F
  refill now rps burst_size d =
      let tokens = add d.tokens (mul (seconds (now - d.last_refil)) rps) in
      if greater tokens (of_int burst_size) then of_int burst_size else tokens

  unfoldable pub current : ℕ → TokenBucket → Option TokenData → F
  current now tb none =
      refill now tb.rps tb.burst_size (record { tokens = of_int tb.burst_size; last_refil = now })
  current now tb (some d) = refill now tb.rps tb.burst_size d

  unfoldable pub take_tokens : ℕ → F → F × Bool
  take_tokens n tokens =
      if reaches tokens (of_int n) then (sub tokens (of_int n), true) else (tokens, false)

  unfoldable pub allow_n : ℕ → TokenBucket → Bytes → ℕ → TokenBucket × Bool
  allow_n now tb key n =
      let clean = cleanup_if_due now tb in
      let (tokens, allowed) = take_tokens n (current now clean (lookup key clean.buckets)) in
      if at_most n 0 then (tb, true) else (
        record clean {
          buckets = insert key (record { tokens = tokens; last_refil = now }) clean.buckets;
        },
        allowed,
      )

  unfoldable pub allow : ℕ → TokenBucket → Bytes → TokenBucket × Bool
  allow now tb key = allow_n now tb key 1

  unfoldable pub remaining_of : ℕ → TokenBucket → Option TokenData → ℕ
  remaining_of now tb none = tb.burst_size
  remaining_of now tb (some d) = to_int (refill now tb.rps tb.burst_size d)

  unfoldable pub remaining : ℕ → TokenBucket → Bytes → ℕ
  remaining now tb key = remaining_of now tb (lookup key tb.buckets)

  unfoldable pub reset : TokenBucket → Bytes → TokenBucket
  reset tb key = record tb { buckets = delete key tb.buckets }

  unfoldable pub stats : TokenBucket → F × ℕ × ℕ × ℕ
  stats tb = (tb.rps, tb.burst_size, length tb.buckets, tb.window_duration)
