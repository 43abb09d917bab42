-- ===== src/Limiter/SlidingWindow.antt =====
-- adapters/limiter-memory/sliding_window.go: the requests of the last stretch of time are counted.
pub mod Laws
pub mod Grants
use tenantkit.Prelude.{
  ℕ, ◌+◌, Bool, true, false, Option, none, some, List, [], ◌∷◌, ◌++◌, ltb, if◌then◌else◌, length,
  replicate,
}
use tenantkit.Assoc.{lookup, insert, delete, delete_where, text_eq}
use tenantkit.Limiter.{second, day, is_due, at_least}
use tenantkit.Text.{Bytes}
use tenantkit.Word.{add, sub, less, at_most}

pub record SlidingRequest : Type 0 where
  pub timestamps : List ℕ
  pub last_read : ℕ

pub record SlidingWindow : Type 0 where
  pub limit : ℕ
  pub window_size : ℕ
  pub requests : List (Bytes × SlidingRequest)
  pub last_cleanup_time : ℕ

unfoldable pub new_sliding_window : ℕ → ℕ → ℕ → SlidingWindow
unfolding at_least
new_sliding_window now limit window_size = record {
  limit = at_least 1 limit;
  window_size = at_least second window_size;
  requests = [];
  last_cleanup_time = now;
}

-- `req.lastRead.Before(cutoff)`
unfoldable pub is_stale : ℕ → SlidingRequest → Bool
is_stale now req = ltb (req.last_read + day) now

unfoldable pub cleanup : ℕ → SlidingWindow → SlidingWindow
unfolding is_stale
cleanup now sw = record sw { requests = delete_where (is_stale now) sw.requests }

unfoldable pub cleanup_if_due : ℕ → SlidingWindow → SlidingWindow
unfolding is_due cleanup
cleanup_if_due now sw =
    if is_due sw.last_cleanup_time now
    then record (cleanup now sw) { last_cleanup_time = now }
    else sw

-- The timestamps after the cutoff, `now.Add(-windowSize)`.
unfoldable pub valid_timestamps : ℕ → ℕ → List ℕ → List ℕ
valid_timestamps now window_size [] = []
valid_timestamps now window_size (ts ∷ timestamps) =
    let rest = valid_timestamps now window_size timestamps in
    if ltb now (ts + window_size) then ts ∷ rest else rest

-- The history of a key, new where there is none, with the old timestamps gone.
unfoldable pub current_timestamps : ℕ → ℕ → Option SlidingRequest → List ℕ
unfolding valid_timestamps
current_timestamps now window_size none = []
current_timestamps now window_size (some req) = valid_timestamps now window_size req.timestamps

-- The end of `AllowN`: the timestamps with the request counted, and whether it is allowed.
unfoldable pub take_requests : ℕ → ℕ → ℕ → List ℕ → List ℕ × Bool
unfolding add less at_most
take_requests now limit n timestamps =
    if at_most limit (length timestamps)
    then (timestamps, false)
    else if less limit (add (length timestamps) n)
    then (timestamps, false)
    else (timestamps ++ replicate n now, true)

-- `req` points into the map, so what becomes of it is stored.
unfoldable pub allow_n : ℕ → SlidingWindow → Bytes → ℕ → SlidingWindow × Bool
unfolding at_most current_timestamps
allow_n now sw key n =
    let clean = cleanup_if_due now sw in
    let (timestamps, allowed) =
      take_requests now clean.limit n
        (current_timestamps now clean.window_size (lookup key clean.requests)) in
    if at_most n 0 then (sw, true) else (
      record clean {
        requests = insert key (record { timestamps = timestamps; last_read = now }) clean.requests;
      },
      allowed,
    )

unfoldable pub allow : ℕ → SlidingWindow → Bytes → SlidingWindow × Bool
allow now sw key = allow_n now sw key 1

-- The loop that counts, and what remains.
unfoldable pub count_valid : ℕ → ℕ → List ℕ → ℕ
count_valid now window_size [] = 0
count_valid now window_size (ts ∷ timestamps) =
    let rest = count_valid now window_size timestamps in
    if ltb now (ts + window_size) then rest + 1 else rest

unfoldable pub remaining_of : ℕ → ℕ → ℕ → Option SlidingRequest → ℕ
unfolding sub count_valid
remaining_of now limit window_size none = limit
remaining_of now limit window_size (some req) =
    sub limit (count_valid now window_size req.timestamps)

unfoldable pub remaining : ℕ → SlidingWindow → Bytes → ℕ
unfolding remaining_of lookup
remaining now sw key = remaining_of now sw.limit sw.window_size (lookup key sw.requests)

unfoldable pub reset : SlidingWindow → Bytes → SlidingWindow
unfolding delete
reset sw key = record sw { requests = delete key sw.requests }
