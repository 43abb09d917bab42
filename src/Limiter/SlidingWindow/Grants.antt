-- ===== src/Limiter/SlidingWindow/Grants.antt =====
-- The calls of a sliding window against what remains for a key.
use tenantkit.Prelude.{
  ℕ, zero, suc, ◌+◌, ◌-◌, ◌≤◌, ◌<◌, ◌≡◌, refl, sym, ◌∙◌, inl, inr, Bool, false, ◌&&◌, Option, none,
  some, List, [], ◌∷◌, arith, ltb, leb, if◌then◌else◌, Bool-cases, length, replicate, All,
  length-append, length-replicate, All-append,
}
use tenantkit.Assoc.{lookup, insert, text_eq}
use tenantkit.Assoc.Keyed.{insert-IsKeyed}
use tenantkit.Assoc.Laws.{lookup-insert_self, All-lookup, All-insert}
use tenantkit.Decimal.{int_bound}
use tenantkit.Limiter.{is_due}
use tenantkit.Limiter.SlidingWindow.{
  SlidingWindow, SlidingRequest, cleanup_if_due, cleanup, current_timestamps, valid_timestamps,
  take_requests, allow_n, count_valid, remaining_of, remaining,
}
use tenantkit.Limiter.SlidingWindow.Laws.{
  IsRequest, IsSlidingWindow, cleanup_if_due-IsSlidingWindow, cleanup-remaining,
  count-valid_timestamps, count-replicate, count-append,
}
use tenantkit.Text.{Bytes}
use tenantkit.Word.{add, less, at_most, add-small, sub-small, less-small, at_most-small}

clean-settings :
    (now : ℕ) (sw : SlidingWindow)
    → ((cleanup_if_due now sw).limit ≡ sw.limit)
      × ((cleanup_if_due now sw).window_size ≡ sw.window_size)
unfolding cleanup_if_due cleanup
clean-settings now sw = elim (Bool-cases (is_due sw.last_cleanup_time now)) [
  | inl d ↦ rw d (refl, refl)
  | inr d ↦ rw d (refl, refl)
]

-- What `take_requests` makes of timestamps that are all in the window.
record IsTaken (now limit window_size n : ℕ) (timestamps : List ℕ) (after : List ℕ × Bool)
    : Type 0 where
  counted : length after.0 ≤ limit
  answer : after.1 ≡ leb n (limit - length timestamps) && ltb (length timestamps) limit
  valid :
      count_valid now window_size after.0
      ≡ (if after.1 then length timestamps + n else length timestamps)

take_requests-IsTaken :
    (now limit window_size n : ℕ) (timestamps : List ℕ)
    → limit + n < int_bound
    → 0 < window_size
    → length timestamps ≤ limit
    → count_valid now window_size timestamps ≡ length timestamps
    → IsTaken now limit window_size n timestamps (take_requests now limit n timestamps)
unfolding take_requests
take_requests-IsTaken now limit window_size n timestamps fits positive bounded all_valid =
    let k = length timestamps in
    let e1 = at_most-small limit k (omega (arith, fits)) (omega (arith, fits, bounded)) in
    let e2 = add-small k n (omega (arith, fits, bounded)) in
    let e3 = less-small limit (k + n) (omega (arith, fits)) (omega (arith, fits, bounded)) in
    elim (Bool-cases (leb limit k)) [
      | inl full ↦
          rw (e1, full) (record { counted = bounded; answer = ground arith; valid = all_valid })
      | inr room ↦ elim (Bool-cases (ltb limit (k + n))) [
        | inl over ↦
            rw (e1, room, e2, e3, over)
              (record { counted = bounded; answer = ground arith; valid = all_valid })
        | inr fit ↦
            rw (e1, room, e2, e3, fit)
              (record {
                counted =
                    ground
                      (arith, length-append timestamps (replicate n now), length-replicate n now);
                answer = ground arith;
                valid = omega (
                  arith,
                  count-append now window_size timestamps (replicate n now),
                  count-replicate now window_size n positive,
                  all_valid,
                );
              })
      ]
    ]

before-replicate : (now n : ℕ) → All (λ ts. ts ≤ now) (replicate n now)
before-replicate now zero = tt
before-replicate now (suc n) = (omega arith, before-replicate now n)

before-valid :
    (now window_size t : ℕ) (timestamps : List ℕ)
    → t ≤ now
    → All (λ ts. ts ≤ t) timestamps
    → All (λ ts. ts ≤ now) (valid_timestamps now window_size timestamps)
unfolding valid_timestamps
before-valid now window_size t [] le h = tt
before-valid now window_size t (ts ∷ timestamps) le (b, h) =
    elim (Bool-cases (ltb now (ts + window_size))) [
      | inl v ↦ rw v (omega (arith, b, le), before-valid now window_size t timestamps le h)
      | inr v ↦ rw v (before-valid now window_size t timestamps le h)
    ]

before-take :
    (now limit n : ℕ) (timestamps : List ℕ)
    → All (λ ts. ts ≤ now) timestamps
    → All (λ ts. ts ≤ now) (take_requests now limit n timestamps).0
unfolding take_requests
before-take now limit n timestamps h = elim (Bool-cases (at_most limit (length timestamps))) [
  | inl full ↦ rw full h
  | inr room ↦ elim (Bool-cases (less limit (add (length timestamps) n))) [
    | inl over ↦ rw (room, over) h
    | inr fit ↦
        rw (room, fit)
          (All-append (λ ts. ts ≤ now) timestamps (replicate n now) h (before-replicate now n))
  ]
]

-- The history of a key before it is asked: all in the window, and as many as are used up.
current-lem :
    (now limit window_size : ℕ) (o : Option SlidingRequest)
    → limit < int_bound
    → ((req : SlidingRequest) → o ≡ some req → IsRequest limit now req)
    → (length (current_timestamps now window_size o) ≤ limit)
      × (count_valid now window_size (current_timestamps now window_size o)
          ≡ length (current_timestamps now window_size o))
      × (limit - length (current_timestamps now window_size o)
          ≡ remaining_of now limit window_size o)
      × All (λ ts. ts ≤ now) (current_timestamps now window_size o)
unfolding current_timestamps remaining_of count_valid
current-lem now limit window_size none fits h = (omega arith, refl, omega arith, tt)
current-lem now limit window_size (some req) fits h =
    let r = h req refl in
    let (a, b, c) = count-valid_timestamps now window_size req.timestamps in
    let few : length (valid_timestamps now window_size req.timestamps) ≤ limit =
      omega (arith, c, r.counted) in
    (
      few,
      b,
      rw a (
          sym
            (sub-small limit (length (valid_timestamps now window_size req.timestamps)) few fits)),
      before-valid now window_size req.last_read req.timestamps r.read r.before,
    )

module _ (t now : ℕ) (le : t ≤ now) (sw : SlidingWindow) (w : IsSlidingWindow t sw) (key : Bytes)
    (n : ℕ) (positive : 0 < n) (fits : sw.limit + n < int_bound) where
  abbrev clean : SlidingWindow
  clean = cleanup_if_due now sw

  abbrev history : List ℕ
  history = current_timestamps now clean.window_size (lookup key clean.requests)

  abbrev stored : SlidingRequest
  stored = record { timestamps = (take_requests now clean.limit n history).0; last_read = now }

  cleaned : IsSlidingWindow now clean
  cleaned = cleanup_if_due-IsSlidingWindow now t sw w le

  history_lem :
      (length history ≤ clean.limit)
      × (count_valid now clean.window_size history ≡ length history)
      × (clean.limit - length history ≡ remaining now clean key)
      × All (λ ts. ts ≤ now) history
  unfolding remaining
  history_lem =
      current-lem now clean.limit clean.window_size (lookup key clean.requests) cleaned.limit_fits
        (λ req e.
          All-lookup (λ slot. IsRequest clean.limit now slot.1) key req clean.requests
            cleaned.requests e)

  taken :
      IsTaken now clean.limit clean.window_size n history (take_requests now clean.limit n history)
  taken =
      let (few, all_valid, left, before) = history_lem in
      take_requests-IsTaken now clean.limit clean.window_size n history
        (rw (clean-settings now sw).0 fits) cleaned.positive few all_valid

  allow_n-eq : allow_n now sw key n ≡ (
    record clean { requests = insert key stored clean.requests },
    (take_requests now clean.limit n history).1,
  )
  unfolding allow_n
  allow_n-eq =
      let asked = at_most-small n 0 (omega (arith, fits)) (omega arith) in
      let some_asked : leb n 0 ≡ false = ground (arith, positive) in rw (asked, some_asked) refl

  -- In a sliding window a call for at least one request keeps the limiter well-formed, under the
  -- conditions that the clock does not run back and that the limit and the request stay below 2^63
  -- together: no history is longer than the limit or holds a time after its last reading, and the
  -- keys are distinct.
  pub allow_n-IsSlidingWindow : IsSlidingWindow now (allow_n now sw key n).0
  allow_n-IsSlidingWindow =
      let (few, all_valid, left, before) = history_lem in
      rw allow_n-eq (record {
        limit_fits = cleaned.limit_fits;
        positive = cleaned.positive;
        short = cleaned.short;
        keyed = insert-IsKeyed key stored clean.requests cleaned.keyed;
        requests =
            All-insert (λ slot. IsRequest clean.limit now slot.1) key stored clean.requests
              cleaned.requests
              (record {
                counted = taken.counted;
                before = before-take now clean.limit n history before;
                read = omega arith;
              });
      })

  stored-remaining :
      remaining now (allow_n now sw key n).0 key
      ≡ clean.limit - count_valid now clean.window_size stored.timestamps
  unfolding remaining remaining_of
  stored-remaining =
      rw (allow_n-eq, lookup-insert_self key stored clean.requests)
        (sub-small clean.limit (count_valid now clean.window_size stored.timestamps)
          (ground (arith, taken.valid, taken.answer, history_lem.0)) cleaned.limit_fits)

  -- In a sliding window a call for at least one request is allowed exactly if what remains for the
  -- key at that time suffices, and takes its requests from there; a refused call takes none. The
  -- limiter is well-formed, its window no longer than 24 hours, the clock does not run back, and
  -- the limit and the request stay below 2^63 together.
  pub sliding_allow_n-remaining :
      ((allow_n now sw key n).1 ≡ leb n (remaining now sw key))
      × (remaining now (allow_n now sw key n).0 key
          ≡ (if (allow_n now sw key n).1 then remaining now sw key - n else remaining now sw key))
  sliding_allow_n-remaining =
      let (few, all_valid, left, old) = history_lem in
      let before = left ∙ cleanup-remaining now t sw key w le in
      (
        ground (arith, allow_n-eq, taken.answer, before, positive),
        ground (arith, allow_n-eq, stored-remaining, taken.valid, before),
      )
