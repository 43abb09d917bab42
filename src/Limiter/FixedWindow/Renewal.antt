-- ===== src/Limiter/FixedWindow/Renewal.antt =====
-- What a fixed window grants to a key whose window has ended.
use tenantkit.Prelude.{
  ℕ, ◌+◌, ◌-◌, ◌≤◌, ◌<◌, ◌≡◌, refl, true, Option, none, some, List, [], ◌∷◌, arith, ltb, ◌∙◌,
}
use tenantkit.Assoc.{lookup, text_eq}
use tenantkit.Assoc.Laws.{All-lookup}
use tenantkit.Decimal.{int_bound}
use tenantkit.Limiter.FixedWindow.{FixedWindow, WindowData, allow_n, remaining_of, remaining}
use tenantkit.Limiter.FixedWindow.Laws.{IsWindow, IsFixedWindow, later-IsFixedWindow}
use tenantkit.Limiter.FixedWindow.Grants.{allow_n-IsFixedWindow, allow_n-remaining}
use tenantkit.Limiter.FixedWindow.Rate.{Call, IsTimed, allow_n-settings}
use tenantkit.Text.{Bytes}

-- The limiter after a sequence of calls.
unfoldable pub run_calls : FixedWindow → List Call → FixedWindow
run_calls fw [] = fw
run_calls fw (c ∷ cs) = run_calls (allow_n c.time fw c.key c.requests).0 cs

run_calls-IsFixedWindow :
    (stop : ℕ) (calls : List Call) (t : ℕ) (fw : FixedWindow)
    → IsFixedWindow t fw
    → t ≤ stop
    → IsTimed t stop fw.limit calls
    → IsFixedWindow stop (run_calls fw calls)
      × ((run_calls fw calls).limit ≡ fw.limit)
      × ((run_calls fw calls).window_size ≡ fw.window_size)
unfolding run_calls
run_calls-IsFixedWindow stop [] t fw w le timed = (later-IsFixedWindow stop t fw w le, refl, refl)
run_calls-IsFixedWindow stop (c ∷ cs) t fw w le (early, before, positive, fits, timed) =
    let next = (allow_n c.time fw c.key c.requests).0 in
    let (same_limit, same_size) =
      allow_n-settings stop t c.time early fw w c.key c.key c.requests positive fits in
    let (kept, limit, size) =
      run_calls-IsFixedWindow stop cs c.time next
        (allow_n-IsFixedWindow t c.time early fw w c.key c.requests positive fits) before
        (rw same_limit timed) in
    (kept, limit ∙ same_limit, size ∙ same_size)

ended-remaining_of :
    (t now limit window_size : ℕ) (o : Option WindowData)
    → t + window_size < now
    → ((wd : WindowData) → o ≡ some wd → IsWindow limit window_size t wd)
    → remaining_of now limit o ≡ limit
unfolding remaining_of
ended-remaining_of t now limit window_size none over h = refl
ended-remaining_of t now limit window_size (some wd) over h =
    let w = h wd refl in
    let ended : ltb wd.window_end now ≡ true = ground (arith, w.ends, w.accessed, over) in
    rw ended refl

ended-remaining :
    (t now : ℕ) (fw : FixedWindow) (key : Bytes)
    → IsFixedWindow t fw
    → t + fw.window_size < now
    → remaining now fw key ≡ fw.limit
unfolding remaining
ended-remaining t now fw key w over =
    ended-remaining_of t now fw.limit fw.window_size (lookup key fw.windows) over (λ wd e.
      All-lookup (λ slot. IsWindow fw.limit fw.window_size t slot.1) key wd fw.windows w.windows e)

-- No key is locked out of a fixed window: whatever calls for at least one request were made of a
-- well-formed limiter, its window no longer than 24 hours, of this key and of others, a call for a
-- key that comes more than the window after the last of them, for at least one request and at most
-- the limit, is allowed, and what remains is the limit without its requests. The calls do not run
-- back in time, and the limit and each request stay below 2^63 together.
pub run_calls-renewed :
    (t stop now : ℕ) (fw : FixedWindow) (calls : List Call) (key : Bytes) (n : ℕ)
    → IsFixedWindow t fw
    → t ≤ stop
    → IsTimed t stop fw.limit calls
    → stop + fw.window_size < now
    → 0 < n
    → n ≤ fw.limit
    → fw.limit + n < int_bound
    → ((allow_n now (run_calls fw calls) key n).1 ≡ true)
      × (remaining now (allow_n now (run_calls fw calls) key n).0 key ≡ fw.limit - n)
run_calls-renewed t stop now fw calls key n w le timed over positive enough fits =
    let used = run_calls fw calls in
    let (kept, limit, size) = run_calls-IsFixedWindow stop calls t fw w le timed in
    let full : remaining now used key ≡ fw.limit =
      ended-remaining stop now used key kept (rw size over) ∙ limit in
    let (answer, left) =
      allow_n-remaining stop now (omega (arith, over)) used kept key n positive (rw limit fits) in
    let allowed : (allow_n now used key n).1 ≡ true = ground (arith, answer, full, enough) in
    (allowed, ground (arith, left, allowed, full))
