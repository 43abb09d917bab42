-- ===== src/Limiter/FixedWindow.antt =====
-- adapters/limiter-memory/fixed_window.go: counters that start anew with each window.
pub mod Laws
pub mod Grants
pub mod Rate
pub mod Renewal
use tenantkit.Prelude.{ℕ, ◌+◌, Bool, true, false, Option, none, some, List, [], ltb, if◌then◌else◌}
use tenantkit.Assoc.{lookup, insert, delete, delete_where, text_eq}
use tenantkit.Limiter.{second, day, is_due, at_least}
use tenantkit.Text.{Bytes}
use tenantkit.Word.{add, sub, less, at_most}

pub record WindowData : Type 0 where
  pub count : ℕ
  pub window_end : ℕ
  pub last_access : ℕ

pub record FixedWindow : Type 0 where
  pub limit : ℕ
  pub window_size : ℕ
  pub windows : List (Bytes × WindowData)
  pub last_cleanup_time : ℕ

unfoldable pub new_fixed_window : ℕ → ℕ → ℕ → FixedWindow
unfolding at_least
new_fixed_window now limit window_size = record {
  limit = at_least 1 limit;
  window_size = at_least second window_size;
  windows = [];
  last_cleanup_time = now;
}

-- `wd.lastAccess.Before(cutoff)`
unfoldable pub is_stale : ℕ → WindowData → Bool
is_stale now wd = ltb (wd.last_access + day) now

unfoldable pub cleanup : ℕ → FixedWindow → FixedWindow
unfolding is_stale
cleanup now fw = record fw { windows = delete_where (is_stale now) fw.windows }

unfoldable pub cleanup_if_due : ℕ → FixedWindow → FixedWindow
unfolding is_due
cleanup_if_due now fw =
    if is_due fw.last_cleanup_time now
    then record (cleanup now fw) { last_cleanup_time = now }
    else fw

-- The window of a key, new where there is none or it has ended, with its access recorded.
unfoldable pub current_window : ℕ → ℕ → Option WindowData → WindowData
current_window now window_size none = record {
  count = 0;
  window_end = now + window_size;
  last_access = now;
}
current_window now window_size (some wd) =
    if ltb wd.window_end now
    then record { count = 0; window_end = now + window_size; last_access = now }
    else record wd { last_access = now }

-- The end of `AllowN`: the window with the request counted, and whether it is allowed.
unfoldable pub take_requests : ℕ → ℕ → WindowData → WindowData × Bool
unfolding add less at_most
take_requests limit n wd =
    if at_most limit wd.count
    then (wd, false)
    else if less limit (add wd.count n)
    then (wd, false)
    else (record wd { count = add wd.count n }, true)

-- `wd` points into the map, so what becomes of it is stored.
unfoldable pub allow_n : ℕ → FixedWindow → Bytes → ℕ → FixedWindow × Bool
unfolding at_most current_window
allow_n now fw key n =
    let clean = cleanup_if_due now fw in
    let (wd, allowed) =
      take_requests clean.limit n
        (current_window now clean.window_size (lookup key clean.windows)) in
    if at_most n 0
    then (fw, true)
    else (record clean { windows = insert key wd clean.windows }, allowed)

unfoldable pub allow : ℕ → FixedWindow → Bytes → FixedWindow × Bool
allow now fw key = allow_n now fw key 1

-- What remains of a window, if there is one.
unfoldable pub remaining_of : ℕ → ℕ → Option WindowData → ℕ
unfolding sub
remaining_of now limit none = limit
remaining_of now limit (some wd) = if ltb wd.window_end now then limit else sub limit wd.count

unfoldable pub remaining : ℕ → FixedWindow → Bytes → ℕ
unfolding remaining_of lookup
remaining now fw key = remaining_of now fw.limit (lookup key fw.windows)

unfoldable pub reset : FixedWindow → Bytes → FixedWindow
unfolding delete
reset fw key = record fw { windows = delete key fw.windows }
