-- ===== src/Limiter.antt =====
-- The rate limiters of adapters/limiter-memory: a module for each algorithm, and here what they
-- share. A time is its nanoseconds since an origin that lies before every time; a call reads the
-- clock once, as `now`. `t.Before(now.Add(-d))` is `t + d < now`. The locks make a call one step.
pub mod FixedWindow
pub mod SlidingWindow
pub mod TokenBucket
pub mod Memory
use tenantkit.Prelude.{ℕ, ◌+◌, ◌-◌, Bool, ltb, if◌then◌else◌}
use tenantkit.Word.{less}

abbrev pub second : ℕ
second = 1_000_000_000

abbrev pub hour : ℕ
hour = 3_600_000_000_000

abbrev pub day : ℕ
day = 86_400_000_000_000

-- Whether a call cleans up: `time.Since(t) > time.Hour`
unfoldable pub is_due : ℕ → ℕ → Bool
is_due last_cleanup_time now = ltb (last_cleanup_time + hour) now

-- `if limit < 1 { limit = 1 }`
unfoldable pub at_least : ℕ → ℕ → ℕ
unfolding less
at_least least value = if less value least then least else value
