-- ===== src/Tests/Limits.antt =====
-- Runs of a fixed window.
use tenantkit.Prelude.{
  ℕ, true, ◌-◌, ◌≡◌, refl, false, some, [], ◌∷◌, arith, leb, if◌then◌else◌, List, none, ◌≤◌,
}
use tenantkit.Tests.{running}
use tenantkit.Limiter.{is_due}
use tenantkit.Limiter.FixedWindow.{FixedWindow, WindowData, allow_n, remaining}
use tenantkit.Limiter.FixedWindow.Laws.{IsFixedWindow}
use tenantkit.Limiter.FixedWindow.Grants.{allow_n-IsFixedWindow, allow_n-remaining, allow_n-other}
use tenantkit.Text.{Bytes, codes}
use tenantkit.Assoc.{lookup, text_eq}
use tenantkit.Limiter.FixedWindow.Renewal.{run_calls, run_calls-renewed}
use tenantkit.Limiter.FixedWindow.Rate.{granted, IsTimed, Call, granted-le-limit}

abbrev key : Bytes
key = codes "acme"

abbrev window : WindowData
window = record { count = 2; window_end = 60_000_000_000; last_access = 5 }

abbrev pub fixed : FixedWindow
fixed = record {
  limit = 5;
  window_size = 60_000_000_000;
  windows = (key, window) ∷ [];
  last_cleanup_time = 0;
}

pub fixed-IsFixedWindow : IsFixedWindow 5 fixed
unfolding running
fixed-IsFixedWindow = record {
  limit_fits = omega arith;
  short = omega arith;
  keyed = (refl, tt);
  windows = (record { counted = omega arith; ends = omega arith; accessed = omega arith }, tt);
}

abbrev after : FixedWindow
after = (allow_n 9 fixed key 3).0

allow_n-IsFixedWindow_example : IsFixedWindow 9 after
allow_n-IsFixedWindow_example =
    allow_n-IsFixedWindow 5 9 (omega arith) fixed fixed-IsFixedWindow key 3 (omega arith)
      (omega arith)

allow_n-remaining_example :
    ((allow_n 9 fixed key 3).1 ≡ leb 3 (remaining 9 fixed key))
    × (remaining 9 after key
        ≡ (if (allow_n 9 fixed key 3).1 then remaining 9 fixed key - 3 else remaining 9 fixed key))
allow_n-remaining_example =
    allow_n-remaining 5 9 (omega arith) fixed fixed-IsFixedWindow key 3 (omega arith) (omega arith)

allow_n-other_example : remaining 9 after (codes "globex") ≡ remaining 9 fixed (codes "globex")
allow_n-other_example =
    allow_n-other 5 9 (omega arith) fixed fixed-IsFixedWindow key 3 (omega arith) (omega arith)
      (codes "globex") (λ e. absurd cc)

key-window : lookup key fixed.windows ≡ some window
unfolding running
key-window = refl

not_due : is_due 0 9 ≡ false
unfolding is_due
not_due = refl

-- Six requests in one window, of which the limit lets through three.
abbrev calls : List Call
calls =
    record { time = 6; key = codes "globex"; requests = 3 }
    ∷ record { time = 8; key = codes "globex"; requests = 3 }
    ∷ []

globex-absent : lookup (codes "globex") fixed.windows ≡ none
unfolding running
globex-absent = refl

calls-IsTimed : (stop : ℕ) → 8 ≤ stop → IsTimed 5 stop fixed.limit calls
calls-IsTimed stop le = (
  omega arith,
  omega (arith, le),
  omega arith,
  omega arith,
  (omega arith, le, omega arith, omega arith, tt),
)

granted-le-limit_example : granted (codes "globex") fixed calls ≤ fixed.limit
granted-le-limit_example =
    granted-le-limit 5 fixed (codes "globex") calls fixed-IsFixedWindow globex-absent
      (calls-IsTimed _ (omega arith))

-- The window after them grants all five requests.
abbrev later : FixedWindow
later = run_calls fixed calls

run_calls-renewed_example :
    ((allow_n 60_000_000_009 later (codes "globex") 5).1 ≡ true)
    × (remaining 60_000_000_009 (allow_n 60_000_000_009 later (codes "globex") 5).0 (codes "globex")
        ≡ 0)
run_calls-renewed_example =
    run_calls-renewed 5 8 60_000_000_009 fixed calls (codes "globex") 5 fixed-IsFixedWindow
      (omega arith) (calls-IsTimed 8 (omega arith)) (omega arith) (omega arith) (omega arith)
      (omega arith)
