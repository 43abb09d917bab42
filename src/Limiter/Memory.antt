-- ===== src/Limiter/Memory.antt =====
-- adapters/limiter-memory/limiter-memory.go: the limiter that the program is given, over one of the
-- three algorithms. The algorithms return no error of their own.
use tenantkit.Prelude.{ℕ, Bool, ◌&&◌, [], if◌then◌else◌, Result, ok, err, panic, ◌>>=◌}
use tenantkit.Limiter.{second}
use tenantkit.Limiter.FixedWindow as Fixed
use tenantkit.Limiter.SlidingWindow as Sliding
use tenantkit.Limiter.TokenBucket as Bucket
use tenantkit.Limiter.FixedWindow.{FixedWindow}
use tenantkit.Limiter.SlidingWindow.{SlidingWindow}
use tenantkit.Limiter.TokenBucket.{Float, TokenBucket}
use tenantkit.Text.{Bytes, codes, bytes_eq, trim_space}
use tenantkit.Word.{at_most}

pub data LimiterError : Type 0 where
  negative_rate unknown_algorithm empty_tenant_id blank_tenant_id : LimiterError

unfoldable pub validate_tenant_key : Bytes → Result LimiterError (Unit {0})
validate_tenant_key key =
    if bytes_eq key []
    then err empty_tenant_id
    else if bytes_eq (trim_space key) []
    then err blank_tenant_id
    else ok tt

module _ (f : Float) where
  pub data Algorithm : Type 0 where
    token_bucket : TokenBucket f → Algorithm
    sliding_window : SlidingWindow → Algorithm
    fixed_window : FixedWindow → Algorithm

  pub record LimiterMemory : Type 0 where
    pub limiter : Algorithm
    pub algo : Bytes

  pub record Config : Type 0 where
    pub algorithm : Bytes
    pub requests_per_second : f.F
    pub burst_size : ℕ
    pub limit : ℕ
    pub window_size : ℕ

  -- `rps == 0`
  unfoldable pub is_zero : f.F → Bool
  is_zero x = f.reaches x (f.of_int 0) && f.reaches (f.of_int 0) x

  unfoldable pub default_rate : f.F → f.F
  default_rate rps = if is_zero rps then f.of_int 10 else rps

  unfoldable pub new_bucket : ℕ → f.F → ℕ → TokenBucket f
  new_bucket now rps burst_size =
      let burst = if at_most burst_size 0 then f.to_int (f.mul rps (f.of_int 2)) else burst_size in
      Bucket.new_token_bucket f now rps burst

  -- `if value <= 0 { value = otherwise }`
  unfoldable pub or_default : ℕ → ℕ → ℕ
  or_default value otherwise = if at_most value 0 then otherwise else value

  unfoldable pub new_algorithm : ℕ → Config → Bytes → Result LimiterError Algorithm
  new_algorithm now config algorithm =
      let rps = config.requests_per_second in
      if bytes_eq algorithm (codes "token_bucket")
      then (if f.greater (f.of_int 0) rps
          then err negative_rate
          else ok (token_bucket (new_bucket now (default_rate rps) config.burst_size)))
      else if bytes_eq algorithm (codes "sliding_window")
      then ok (
          sliding_window (
            Sliding.new_sliding_window now (or_default config.limit 10)
              (or_default config.window_size second)))
      else if bytes_eq algorithm (codes "fixed_window")
      then ok (
          fixed_window (
            Fixed.new_fixed_window now (or_default config.limit 10)
              (or_default config.window_size second)))
      else err unknown_algorithm

  unfoldable pub new_limiter_memory : ℕ → Config → Result LimiterError LimiterMemory
  new_limiter_memory now config =
      let algorithm =
        if bytes_eq config.algorithm [] then codes "token_bucket" else config.algorithm in
      (do
        limiter ← new_algorithm now config algorithm
        ok (record { limiter = limiter; algo = algorithm }))

  unfoldable pub algorithm_allow_n : ℕ → Algorithm → Bytes → ℕ → Algorithm × Bool
  algorithm_allow_n now (token_bucket tb) key n =
      let (after, allowed) = Bucket.allow_n f now tb key n in (token_bucket after, allowed)
  algorithm_allow_n now (sliding_window sw) key n =
      let (after, allowed) = Sliding.allow_n now sw key n in (sliding_window after, allowed)
  algorithm_allow_n now (fixed_window fw) key n =
      let (after, allowed) = Fixed.allow_n now fw key n in (fixed_window after, allowed)

  unfoldable pub algorithm_remaining : ℕ → Algorithm → Bytes → ℕ
  algorithm_remaining now (token_bucket tb) key = Bucket.remaining f now tb key
  algorithm_remaining now (sliding_window sw) key = Sliding.remaining now sw key
  algorithm_remaining now (fixed_window fw) key = Fixed.remaining now fw key

  unfoldable pub algorithm_reset : Algorithm → Bytes → Algorithm
  algorithm_reset (token_bucket tb) key = token_bucket (Bucket.reset f tb key)
  algorithm_reset (sliding_window sw) key = sliding_window (Sliding.reset sw key)
  algorithm_reset (fixed_window fw) key = fixed_window (Fixed.reset fw key)

  unfoldable pub allow_valid :
      ℕ
      → LimiterMemory
      → Bytes
      → ℕ
      → Result LimiterError (Unit {0})
      → LimiterMemory × Result LimiterError Bool
  allow_valid now l key n (ok u) =
      let (limiter, allowed) = algorithm_allow_n now l.limiter key n in
      (record l { limiter = limiter }, ok allowed)
  allow_valid now l key n (err e) = (l, err e)
  allow_valid now l key n panic = (l, panic)

  unfoldable pub allow_n : ℕ → LimiterMemory → Bytes → ℕ → LimiterMemory × Result LimiterError Bool
  allow_n now l key n = allow_valid now l key n (validate_tenant_key key)

  unfoldable pub allow : ℕ → LimiterMemory → Bytes → LimiterMemory × Result LimiterError Bool
  allow now l key = allow_valid now l key 1 (validate_tenant_key key)

  unfoldable pub remaining : ℕ → LimiterMemory → Bytes → ℕ
  remaining now l key = algorithm_remaining now l.limiter key

  unfoldable pub reset : LimiterMemory → Bytes → LimiterMemory
  reset l key = record l { limiter = algorithm_reset l.limiter key }
