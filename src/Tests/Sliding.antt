-- ===== src/Tests/Sliding.antt =====
-- Runs of a sliding window.
use tenantkit.Prelude.{ℕ, ◌-◌, ◌≡◌, refl, [], ◌∷◌, arith, leb, if◌then◌else◌}
use tenantkit.Limiter.SlidingWindow.{SlidingWindow, allow_n, remaining}
use tenantkit.Limiter.SlidingWindow.Laws.{IsSlidingWindow}
use tenantkit.Limiter.SlidingWindow.Grants.{sliding_allow_n-remaining}
use tenantkit.Tests.{running}
use tenantkit.Text.{Bytes, codes}

abbrev key : Bytes
key = codes "acme"

abbrev sliding : SlidingWindow
sliding = record {
  limit = 3;
  window_size = 1_000_000_000;
  requests = (key, record { timestamps = 2 ∷ 5 ∷ []; last_read = 5 }) ∷ [];
  last_cleanup_time = 0;
}

sliding-IsSlidingWindow : IsSlidingWindow 5 sliding
unfolding running
sliding-IsSlidingWindow = record {
  limit_fits = omega arith;
  positive = omega arith;
  short = omega arith;
  keyed = (refl, tt);
  requests = (
    record { counted = omega arith; before = (omega arith, (omega arith, tt)); read = omega arith },
    tt,
  );
}

-- At this time the first of the two requests is out of the window.
abbrev later : ℕ
later = 1_000_000_003

sliding_allow_n-remaining_example :
    ((allow_n later sliding key 2).1 ≡ leb 2 (remaining later sliding key))
    × (remaining later (allow_n later sliding key 2).0 key ≡ (
        if (allow_n later sliding key 2).1
        then remaining later sliding key - 2
        else remaining later sliding key))
sliding_allow_n-remaining_example =
    sliding_allow_n-remaining 5 later (omega arith) sliding sliding-IsSlidingWindow key 2
      (omega arith) (omega arith)
