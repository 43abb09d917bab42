-- ===== src/Http/RateLimit/Laws.antt =====
-- Sequences of requests behind the rate limit, with the limiter of fixed windows.
use tenantkit.Prelude.{
  ℕ, Bool, true, false, ◌&&◌, List, [], ◌∷◌, if◌then◌else◌, pos, ◌+◌, inr, All, ◌≡◌, Bool-cases,
  map, inl, none, ◌≤◌, refl,
}
use tenantkit.Assoc.{text_eq, lookup}
use tenantkit.Http.{Request}
use tenantkit.Http.Middleware.{should_skip}
use tenantkit.Http.RateLimit.{
  Limiter, RateLimit, Reply, forwarded, forwarded_with, limited, handler, RateLimitOptions,
  answered,
}
use tenantkit.Limiter.FixedWindow.{FixedWindow, allow_n, remaining}
use tenantkit.Text.{Bytes, bytes_eq}
use tenantkit.Limiter.FixedWindow.Rate.{Call, granted, IsTimed, granted-le-limit}
use tenantkit.Limiter.FixedWindow.Laws.{IsFixedWindow}

-- The port of the fixed windows. What remains is an int64 below 2^63.
abbrev pub fixed_windows : Limiter FixedWindow
fixed_windows = record {
  allow = λ now fw key. let (after, allowed) = allow_n now fw key 1 in (after, inr allowed);
  remaining = λ now fw key. (fw, pos (remaining now fw key));
}

-- A request with the time at which it is served.
abbrev pub Arrival : Type 0
Arrival = ℕ × Request

abbrev pub is_forwarded {ℓ} : {R : Type ℓ} → Reply R → Bool
is_forwarded (forwarded x) = true
is_forwarded (forwarded_with left limit x) = true
is_forwarded (limited left now window) = false

-- How many requests of a key reach the next handler.
unfoldable pub passed {ℓ} :
    {R : Type ℓ} → RateLimit FixedWindow → (Request → R) → Bytes → FixedWindow → List Arrival → ℕ
passed m next k fw [] = 0
passed m next k fw (a ∷ arrivals) =
    let rest = passed m next k (handler m next a.0 fw a.1).0 arrivals in
    if is_forwarded (handler m next a.0 fw a.1).1 && bytes_eq (m.key_extractor a.1) k
    then 1 + rest
    else rest

abbrev pub call_of : (Request → Bytes) → Arrival → Call
call_of key a = record { time = a.0; key = key a.1; requests = 1 }

module _ (key : Request → Bytes) (skip_paths : List Bytes) (options : RateLimitOptions) where
  abbrev pub behind_fixed_windows : RateLimit FixedWindow
  behind_fixed_windows = record {
    limiter = fixed_windows;
    key_extractor = key;
    skip_paths = skip_paths;
    options = options;
  }

  module _ {ℓ} {R : Type ℓ} (next : Request → R) where
    -- A request that is not skipped is one call of the limiter.
    handler-call :
        (fw : FixedWindow) (now : ℕ) (r : Request)
        → should_skip skip_paths r.path ≡ false
        → ((handler behind_fixed_windows next now fw r).0 ≡ (allow_n now fw (key r) 1).0)
          × (is_forwarded (handler behind_fixed_windows next now fw r).1
              ≡ (allow_n now fw (key r) 1).1)
    unfolding handler answered
    handler-call fw now r kept = elim (Bool-cases (allow_n now fw (key r) 1).1) [
      | inl allowed ↦ rw (kept, allowed, answered) (refl, refl)
      | inr refused ↦ rw (kept, refused, answered) (refl, refl)
    ]

    passed-eq-granted :
        (k : Bytes) (fw : FixedWindow) (arrivals : List Arrival)
        → All (λ a. should_skip skip_paths a.1.path ≡ false) arrivals
        → passed behind_fixed_windows next k fw arrivals ≡ granted k fw (map (call_of key) arrivals)
    unfolding passed granted
    passed-eq-granted k fw [] kept = refl
    passed-eq-granted k fw ((now, r) ∷ arrivals) (kept, others) =
        let (state, answer) = handler-call fw now r kept in
        rw (state, answer, passed-eq-granted k (allow_n now fw (key r) 1).0 arrivals others) refl

-- Behind the rate limit with a limiter of fixed windows, requests that are not skipped and that
-- arrive one after the other in a stretch of time no longer than the window reach the next handler
-- no more often for a key than the limit, if the limiter is well-formed, its window no longer than
-- 24 hours, and has no window for the key at the beginning; the limit and a request stay below 2^63
-- together.
pub passed-le-limit {ℓ} :
    {R : Type ℓ} (key : Request → Bytes) (skip_paths : List Bytes) (options : RateLimitOptions)
    (next : Request → R) (t : ℕ) (fw : FixedWindow) (k : Bytes) (arrivals : List Arrival)
    → All (λ a. should_skip skip_paths a.1.path ≡ false) arrivals
    → IsFixedWindow t fw
    → lookup k fw.windows ≡ none
    → IsTimed t (t + fw.window_size) fw.limit (map (call_of key) arrivals)
    → passed (behind_fixed_windows key skip_paths options) next k fw arrivals ≤ fw.limit
passed-le-limit key skip_paths options next t fw k arrivals kept w absent timed =
    rw (passed-eq-granted key skip_paths options next k fw arrivals kept)
      (granted-le-limit t fw k (map (call_of key) arrivals) w absent timed)
