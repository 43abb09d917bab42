-- ===== src/Limiter/FixedWindow/Grants.antt =====
-- The calls of a fixed window against what remains of a key's window.
use tenantkit.Prelude.{
  ℕ, ◌+◌, ◌-◌, ◌≤◌, ◌<◌, ◌≡◌, refl, ◌∙◌, ◌≢◌, inl, inr, false, ◌&&◌, some, arith, ltb, leb,
  if◌then◌else◌, Bool-cases, true, ◌%◌,
}
use tenantkit.Assoc.{lookup, insert, text_eq}
use tenantkit.Assoc.Keyed.{insert-IsKeyed}
use tenantkit.Assoc.Laws.{lookup-insert, lookup-insert_self, All-lookup, All-insert}
use tenantkit.Decimal.{int_bound, word_bound}
use tenantkit.Limiter.{is_due}
use tenantkit.Limiter.FixedWindow.{
  FixedWindow, WindowData, cleanup_if_due, current_window, take_requests, allow_n, remaining_of,
  remaining, cleanup,
}
use tenantkit.Limiter.FixedWindow.Laws.{
  IsWindow, IsFixedWindow, cleanup_if_due-IsFixedWindow, cleanup-remaining, current_window-IsWindow,
  take_requests-IsWindow,
}
use tenantkit.Text.{Bytes, bytes_eq}
use tenantkit.Text.Equality.{bytes_eq_iff}
use tenantkit.Word.{at_most, sub-small, at_most-small, less-negative, add, less}

pub positive-at_most : (n : ℕ) → 0 < n → n < int_bound → at_most n 0 ≡ false
positive-at_most n p h = at_most-small n 0 h (omega arith) ∙ ground (arith, p)

clean-limit : (now : ℕ) (fw : FixedWindow) → (cleanup_if_due now fw).limit ≡ fw.limit
unfolding cleanup_if_due cleanup
clean-limit now fw = elim (Bool-cases (is_due fw.last_cleanup_time now)) [
  | inl d ↦ rw d refl
  | inr d ↦ rw d refl
]

module _ (t now : ℕ) (le : t ≤ now) (fw : FixedWindow) (w : IsFixedWindow t fw) (key : Bytes)
    (n : ℕ) (positive : 0 < n) (fits : fw.limit + n < int_bound) where
  abbrev pub clean : FixedWindow
  clean = cleanup_if_due now fw

  abbrev pub window : WindowData
  window = current_window now clean.window_size (lookup key clean.windows)

  cleaned : IsFixedWindow now clean
  cleaned = cleanup_if_due-IsFixedWindow now t fw w le

  fits_clean : clean.limit + n < int_bound
  fits_clean = rw (clean-limit now fw) fits

  window_lem :
      IsWindow clean.limit clean.window_size now window
      × (clean.limit - window.count ≡ remaining now clean key)
      × (now ≤ window.window_end)
  unfolding remaining
  window_lem =
      current_window-IsWindow now clean.limit clean.window_size (lookup key clean.windows)
        cleaned.limit_fits
        (λ wd e.
          All-lookup (λ slot. IsWindow clean.limit clean.window_size now slot.1) key wd
            clean.windows cleaned.windows e)

  pub taken :
      IsWindow clean.limit clean.window_size now (take_requests clean.limit n window).0
      × ((take_requests clean.limit n window).0.window_end ≡ window.window_end)
      × ((take_requests clean.limit n window).1
          ≡ leb n (clean.limit - window.count) && ltb window.count clean.limit)
      × ((take_requests clean.limit n window).0.count
          ≡ (if (take_requests clean.limit n window).1 then window.count + n else window.count))
  taken = take_requests-IsWindow now clean.limit clean.window_size n window fits_clean window_lem.0

  pub allow_n-eq : allow_n now fw key n ≡ (
    record clean { windows = insert key (take_requests clean.limit n window).0 clean.windows },
    (take_requests clean.limit n window).1,
  )
  unfolding allow_n
  allow_n-eq = rw (positive-at_most n positive (omega (arith, fits))) refl

  -- What is left of a window that has not ended.
  left_of :
      (wd : WindowData)
      → now ≤ wd.window_end
      → wd.count ≤ clean.limit
      → remaining_of now clean.limit (some wd) ≡ clean.limit - wd.count
  unfolding remaining_of
  left_of wd h k =
      let open_window : ltb wd.window_end now ≡ false = ground (arith, h) in
      rw open_window (sub-small clean.limit wd.count k cleaned.limit_fits)

  -- In a fixed window a call for at least one request keeps the limiter well-formed, under the
  -- conditions that the clock does not run back and that the limit and the request stay below 2^63
  -- together: its counters at or below the limit, its windows no longer than they may be, its keys
  -- distinct.
  pub allow_n-IsFixedWindow : IsFixedWindow now (allow_n now fw key n).0
  allow_n-IsFixedWindow = rw allow_n-eq (record {
    limit_fits = cleaned.limit_fits;
    short = cleaned.short;
    keyed = insert-IsKeyed key _ clean.windows cleaned.keyed;
    windows =
        All-insert (λ slot. IsWindow clean.limit clean.window_size now slot.1) key _ clean.windows
          cleaned.windows taken.0;
  })

  stored-remaining :
      remaining now (allow_n now fw key n).0 key
      ≡ clean.limit - (take_requests clean.limit n window).0.count
  unfolding remaining
  stored-remaining =
      rw (allow_n-eq, lookup-insert_self key (take_requests clean.limit n window).0 clean.windows)
        (left_of (take_requests clean.limit n window).0 (rw taken.1 window_lem.2) taken.0.counted)

  -- In a fixed window a call for at least one request is allowed exactly if what remains of the key
  -- suffices, and takes its requests from there; a refused call takes none. The limiter is
  -- well-formed, its window no longer than 24 hours, the clock does not run back, and the limit and
  -- the request stay below 2^63 together.
  pub allow_n-remaining :
      ((allow_n now fw key n).1 ≡ leb n (remaining now fw key))
      × (remaining now (allow_n now fw key n).0 key
          ≡ (if (allow_n now fw key n).1 then remaining now fw key - n else remaining now fw key))
  allow_n-remaining =
      let before = window_lem.1 ∙ cleanup-remaining now t fw key w le in
      let (w', ends, fits', counts) = taken in
      (
        ground (arith, allow_n-eq, fits', before, positive),
        ground (arith, allow_n-eq, stored-remaining, counts, before),
      )

  -- In a fixed window a call for at least one request leaves what remains for every other key as it
  -- was, also where it cleans up. The limiter is well-formed, its window no longer than 24 hours,
  -- the clock does not run back, and the limit and the request stay below 2^63 together.
  pub allow_n-other :
      (other : Bytes)
      → key ≢ other
      → remaining now (allow_n now fw key n).0 other ≡ remaining now fw other
  unfolding remaining
  allow_n-other other differs =
      rw
        (
          allow_n-eq,
          lookup-insert key other (take_requests clean.limit n window).0 clean.windows,
          other_key,
        )
        (cleanup-remaining now t fw other w le)
    where
      other_key : bytes_eq key other ≡ false
      other_key = ground (arith, bytes_eq_iff key other)

-- Where the counter of an open window with room and the request reach 2^63 together, the sum wraps
-- around, and a request that is larger than what remains is allowed.
pub allow_n-overflow :
    (now : ℕ) (fw : FixedWindow) (key : Bytes) (n : ℕ) (wd : WindowData)
    → is_due fw.last_cleanup_time now ≡ false
    → lookup key fw.windows ≡ some wd
    → now ≤ wd.window_end
    → wd.count < fw.limit
    → fw.limit < int_bound
    → n < int_bound
    → int_bound ≤ wd.count + n
    → ((allow_n now fw key n).1 ≡ true) × (remaining now fw key < n)
unfolding allow_n remaining remaining_of cleanup_if_due current_window take_requests add
allow_n-overflow now fw key n wd due found still_open below fits small over =
    let not_ended : ltb wd.window_end now ≡ false = ground (arith, still_open) in
    let sum : (wd.count + n) % word_bound ≡ wd.count + n = omega (arith, below, fits, small) in
    let room : at_most fw.limit wd.count ≡ false =
      at_most-small fw.limit wd.count fits (omega (arith, below, fits)) ∙ ground (arith, below) in
    let wrapped : less fw.limit (wd.count + n) ≡ false =
      less-negative (wd.count + n) fw.limit over (omega (arith, below, fits, small)) fits in
    let asked = positive-at_most n (omega (arith, below, fits, over)) small in
    (
      rw (asked, due, found, not_ended, room, sum, wrapped) refl,
      rw (found, not_ended, sub-small fw.limit wd.count (omega (arith, below)) fits)
          (omega (arith, below, fits, over)),
    )
