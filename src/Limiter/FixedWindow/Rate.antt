-- ===== src/Limiter/FixedWindow/Rate.antt =====
-- Sequences of calls of a fixed window: the rate that it lets through.
use tenantkit.Prelude.{
  ℕ, ◌+◌, ◌≤◌, ◌<◌, ◌≡◌, refl, inl, inr, Bool, false, ◌&&◌, Option, none, some, List, [], ◌∷◌,
  arith, ltb, if◌then◌else◌, Bool-cases, ap,
}
use tenantkit.Assoc.{lookup, text_eq}
use tenantkit.Assoc.Keyed.{unless, lookup-delete_where}
use tenantkit.Assoc.Laws.{lookup-insert}
use tenantkit.Decimal.{int_bound}
use tenantkit.Limiter.{is_due}
use tenantkit.Limiter.FixedWindow.{
  FixedWindow, WindowData, is_stale, cleanup, cleanup_if_due, current_window, take_requests,
  allow_n, remaining_of, remaining,
}
use tenantkit.Limiter.FixedWindow.Laws.{IsFixedWindow}
use tenantkit.Limiter.FixedWindow.Grants.{
  taken, allow_n-eq, allow_n-IsFixedWindow, allow_n-remaining, allow_n-other,
}
use tenantkit.Text.{Bytes, bytes_eq}
use tenantkit.Text.Equality.{bytes_eq_iff}

pub record Call : Type 0 where
  pub time : ℕ
  pub key : Bytes
  pub requests : ℕ

-- How many requests of a key a sequence of calls lets through.
unfoldable pub granted : Bytes → FixedWindow → List Call → ℕ
granted k fw [] = 0
granted k fw (c ∷ cs) =
    let rest = granted k (allow_n c.time fw c.key c.requests).0 cs in
    if (allow_n c.time fw c.key c.requests).1 && bytes_eq c.key k then c.requests + rest else rest

-- Calls for requests that do not overflow, one after the other from a time to an end.
abbrev pub IsTimed : ℕ → ℕ → ℕ → List Call → Type 0
IsTimed t stop limit [] = Unit
IsTimed t stop limit (c ∷ cs) =
    (t ≤ c.time)
    × (c.time ≤ stop)
    × (0 < c.requests)
    × (limit + c.requests < int_bound)
    × IsTimed c.time stop limit cs

-- A window that there is for the key does not end before.
abbrev IsOpen : ℕ → Option WindowData → Type 0
IsOpen stop none = Unit
IsOpen stop (some wd) = stop ≤ wd.window_end

module _ (stop : ℕ) where
  remaining_of-open :
      (a b limit : ℕ) (o : Option WindowData)
      → a ≤ stop
      → b ≤ stop
      → IsOpen stop o
      → remaining_of a limit o ≡ remaining_of b limit o
  unfolding remaining_of
  remaining_of-open a b limit none h k still_open = refl
  remaining_of-open a b limit (some wd) h k still_open =
      let first : ltb wd.window_end a ≡ false = ground (arith, h, still_open) in
      let second : ltb wd.window_end b ≡ false = ground (arith, k, still_open) in
      rw (first, second) refl

  unless-IsOpen :
      (p : WindowData → Bool) (o : Option WindowData) → IsOpen stop o → IsOpen stop (unless p o)
  unless-IsOpen p none h = tt
  unless-IsOpen p (some wd) h = elim (Bool-cases (p wd)) [ inl e ↦ rw e tt | inr e ↦ rw e h ]

  current_window-IsOpen :
      (now window_size : ℕ) (o : Option WindowData)
      → now ≤ stop
      → stop ≤ now + window_size
      → IsOpen stop o
      → stop ≤ (current_window now window_size o).window_end
  unfolding current_window
  current_window-IsOpen now window_size none h k still_open = k
  current_window-IsOpen now window_size (some wd) h k still_open =
      let going : ltb wd.window_end now ≡ false = ground (arith, h, still_open) in
      rw going still_open

  module _ (t now : ℕ) (le : t ≤ now) (fw : FixedWindow) (w : IsFixedWindow t fw) (k : Bytes) where
    settings :
        ((cleanup_if_due now fw).limit ≡ fw.limit)
        × ((cleanup_if_due now fw).window_size ≡ fw.window_size)
        × (IsOpen stop (lookup k fw.windows)
            → IsOpen stop (lookup k (cleanup_if_due now fw).windows))
    unfolding cleanup_if_due cleanup
    settings = elim (Bool-cases (is_due fw.last_cleanup_time now)) [
      | inl d ↦ rw d (
        refl,
        refl,
        λ h.
            rw (lookup-delete_where k (is_stale now) fw.windows w.keyed)
              (unless-IsOpen (is_stale now) (lookup k fw.windows) h),
      )
      | inr d ↦ rw d (refl, refl, λ h. h)
    ]

    allow_n-IsOpen :
        (key : Bytes) (n : ℕ) (positive : 0 < n) (fits : fw.limit + n < int_bound)
        → now ≤ stop
        → stop ≤ now + fw.window_size
        → IsOpen stop (lookup k fw.windows)
        → IsOpen stop (lookup k (allow_n now fw key n).0.windows)
    allow_n-IsOpen key n positive fits before size still_open =
        let (same_limit, same_size, kept) = settings in
        let clean = cleanup_if_due now fw in
        let wd =
          (take_requests clean.limit n
            (current_window now clean.window_size (lookup key clean.windows))).0 in
        rw (allow_n-eq t now le fw w key n positive fits, lookup-insert key k wd clean.windows)
          (elim (Bool-cases (bytes_eq key k)) [
            | inl same ↦
                let here : key ≡ k = (bytes_eq_iff key k).0 same in
                rw (same, (taken t now le fw w key n positive fits).1)
                  (current_window-IsOpen now clean.window_size (lookup key clean.windows) before
                    (rw same_size size) (rw here (kept still_open)))
            | inr differs ↦ rw differs (kept still_open)
          ])

    pub allow_n-settings :
        (key : Bytes) (n : ℕ) (positive : 0 < n) (fits : fw.limit + n < int_bound)
        → ((allow_n now fw key n).0.limit ≡ fw.limit)
          × ((allow_n now fw key n).0.window_size ≡ fw.window_size)
    allow_n-settings key n positive fits =
        let (same_limit, same_size, kept) = settings in
        rw (allow_n-eq t now le fw w key n positive fits) (same_limit, same_size)

  remaining-open :
      (fw : FixedWindow) (k : Bytes) (a b : ℕ)
      → a ≤ stop
      → b ≤ stop
      → IsOpen stop (lookup k fw.windows)
      → remaining a fw k ≡ remaining b fw k
  unfolding remaining
  remaining-open fw k a b h j still_open =
      remaining_of-open a b fw.limit (lookup k fw.windows) h j still_open

  granted-remaining :
      (k : Bytes) (cs : List Call) (t : ℕ) (fw : FixedWindow)
      → IsFixedWindow t fw
      → t ≤ stop
      → stop ≤ t + fw.window_size
      → IsOpen stop (lookup k fw.windows)
      → IsTimed t stop fw.limit cs
      → granted k fw cs ≤ remaining t fw k
  unfolding granted
  granted-remaining k [] t fw w early size still_open timed = omega arith
  granted-remaining k (c ∷ cs) t fw w early size still_open (le, before, positive, fits, timed) =
      let next = (allow_n c.time fw c.key c.requests).0 in
      let (same_limit, same_size) =
        allow_n-settings t c.time le fw w k c.key c.requests positive fits in
      let size' : stop ≤ c.time + fw.window_size = omega (arith, size, le) in
      let later =
        granted-remaining k cs c.time next
          (allow_n-IsFixedWindow t c.time le fw w c.key c.requests positive fits) before
          (rw same_size size')
          (allow_n-IsOpen t c.time le fw w k c.key c.requests positive fits before size' still_open)
          (rw same_limit timed) in
      let now : remaining c.time fw k ≡ remaining t fw k =
        remaining-open fw k c.time t before early still_open in
      let (answer, left) = allow_n-remaining t c.time le fw w c.key c.requests positive fits in
      elim (Bool-cases (bytes_eq c.key k)) [
        | inl same ↦
            let here : c.key ≡ k = (bytes_eq_iff c.key k).0 same in
            let had : remaining c.time fw c.key ≡ remaining c.time fw k =
              ap (remaining c.time fw) here in
            let has : remaining c.time next c.key ≡ remaining c.time next k =
              ap (remaining c.time next) here in
            rw same (ground (arith, later, now, answer, left, had, has))
        | inr differs ↦
            let others =
              allow_n-other t c.time le fw w c.key c.requests positive fits k
                (λ e. absurd (ground (arith, bytes_eq_iff c.key k))) in
            rw differs (ground (arith, later, now, others))
      ]

nothing_used :
    (t : ℕ) (fw : FixedWindow) (k : Bytes)
    → lookup k fw.windows ≡ none
    → remaining t fw k ≡ fw.limit
unfolding remaining remaining_of
nothing_used t fw k absent = rw absent refl

-- Whatever calls for at least one request follow one another, of this key and of others, in a
-- stretch of time no longer than the window, a well-formed fixed window, its window no longer than
-- 24 hours, that has no window for a key at the beginning lets through no more requests of the key
-- than its limit; the limit and each request stay below 2^63 together.
pub granted-le-limit :
    (t : ℕ) (fw : FixedWindow) (k : Bytes) (calls : List Call)
    → IsFixedWindow t fw
    → lookup k fw.windows ≡ none
    → IsTimed t (t + fw.window_size) fw.limit calls
    → granted k fw calls ≤ fw.limit
granted-le-limit t fw k calls w absent timed =
    let below =
      granted-remaining (t + fw.window_size) k calls t fw w (omega arith) (omega arith)
        (rw absent tt) timed in
    let all_left : remaining t fw k ≡ fw.limit = nothing_used t fw k absent in
    omega (arith, below, all_left)
