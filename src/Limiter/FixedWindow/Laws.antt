-- ===== src/Limiter/FixedWindow/Laws.antt =====
-- What a fixed window grants to a key, and that it leaves the other keys alone.
use tenantkit.Prelude.{
  ℕ, ◌+◌, ◌≤◌, ◌<◌, ◌≡◌, refl, inl, inr, Option, none, some, List, [], ◌∷◌, arith, ltb, Bool-cases,
  All, ◌-◌, sym, leb, ◌&&◌, if◌then◌else◌,
}
use tenantkit.Assoc.{lookup, text_eq}
use tenantkit.Assoc.Keyed.{
  IsKeyed, unless, lookup-delete_where, delete_where-IsKeyed, delete_where-All,
}
use tenantkit.Assoc.Laws.{All-lookup}
use tenantkit.Decimal.{int_bound}
use tenantkit.Limiter.{day, is_due}
use tenantkit.Limiter.FixedWindow.{
  FixedWindow, WindowData, is_stale, cleanup_if_due, cleanup, remaining_of, remaining,
  current_window, take_requests,
}
use tenantkit.Text.{Bytes}
use tenantkit.Word.{sub-small, at_most-small, add-small, less-small}

-- A window has counted no more than the limit, and ends no later than a window that began at its
-- last access; `t` is the last reading of the clock.
pub record IsWindow (limit window_size t : ℕ) (wd : WindowData) : Type 0 where
  pub counted : wd.count ≤ limit
  pub ends : wd.window_end ≤ wd.last_access + window_size
  pub accessed : wd.last_access ≤ t

-- The windows are no longer than the 24 hours after which `cleanup` deletes.
pub record IsFixedWindow (t : ℕ) (fw : FixedWindow) : Type 0 where
  pub limit_fits : fw.limit < int_bound
  pub short : fw.window_size ≤ day
  pub keyed : IsKeyed fw.windows
  pub windows : All (λ slot. IsWindow fw.limit fw.window_size t slot.1) fw.windows

module _ (now : ℕ) where
  later :
      {limit window_size t : ℕ} {wd : WindowData}
      → t ≤ now
      → IsWindow limit window_size t wd
      → IsWindow limit window_size now wd
  later le w = record {
    counted = w.counted;
    ends = w.ends;
    accessed = omega (arith, w.accessed, le);
  }

  later-All :
      (limit window_size t : ℕ) (m : List (Bytes × WindowData))
      → t ≤ now
      → All (λ slot. IsWindow limit window_size t slot.1) m
      → All (λ slot. IsWindow limit window_size now slot.1) m
  later-All limit window_size t [] le h = tt
  later-All limit window_size t (s ∷ m) le (w, h) =
      (later le w, later-All limit window_size t m le h)

  pub later-IsFixedWindow :
      (t : ℕ) (fw : FixedWindow) → IsFixedWindow t fw → t ≤ now → IsFixedWindow now fw
  later-IsFixedWindow t fw w le = record {
    limit_fits = w.limit_fits;
    short = w.short;
    keyed = w.keyed;
    windows = later-All fw.limit fw.window_size t fw.windows le w.windows;
  }

  pub cleanup_if_due-IsFixedWindow :
      (t : ℕ) (fw : FixedWindow)
      → IsFixedWindow t fw
      → t ≤ now
      → IsFixedWindow now (cleanup_if_due now fw)
  unfolding cleanup_if_due cleanup
  cleanup_if_due-IsFixedWindow t fw w le =
      let kept = later-IsFixedWindow t fw w le in
      elim (Bool-cases (is_due fw.last_cleanup_time now)) [
        | inl d ↦ rw d (record {
          limit_fits = w.limit_fits;
          short = w.short;
          keyed = delete_where-IsKeyed (is_stale now) fw.windows w.keyed;
          windows = delete_where-All _ (is_stale now) fw.windows kept.windows;
        })
        | inr d ↦ rw d kept
      ]

  -- A window that is deleted has ended.
  unless-stale :
      (limit window_size : ℕ) (o : Option WindowData)
      → window_size ≤ day
      → ((wd : WindowData) → o ≡ some wd → IsWindow limit window_size now wd)
      → remaining_of now limit (unless (is_stale now) o) ≡ remaining_of now limit o
  unfolding is_stale remaining_of
  unless-stale limit window_size none short h = refl
  unless-stale limit window_size (some wd) short h =
      let w = h wd refl in
      elim (Bool-cases (ltb (wd.last_access + day) now)) [
        | inl s ↦ rw s (ground (arith, w.ends, short))
        | inr s ↦ rw s refl
      ]

  pub cleanup-remaining :
      (t : ℕ) (fw : FixedWindow) (key : Bytes)
      → IsFixedWindow t fw
      → t ≤ now
      → remaining now (cleanup_if_due now fw) key ≡ remaining now fw key
  unfolding remaining cleanup_if_due cleanup
  cleanup-remaining t fw key w le = elim (Bool-cases (is_due fw.last_cleanup_time now)) [
    | inr d ↦ rw d refl
    | inl d ↦
        rw (d, lookup-delete_where key (is_stale now) fw.windows w.keyed)
          (unless-stale fw.limit fw.window_size (lookup key fw.windows) w.short (λ wd e. later le (
            All-lookup (λ slot. IsWindow fw.limit fw.window_size t slot.1) key wd fw.windows
              w.windows e)))
  ]

  pub current_window-IsWindow :
      (limit window_size : ℕ) (o : Option WindowData)
      → limit < int_bound
      → ((wd : WindowData) → o ≡ some wd → IsWindow limit window_size now wd)
      → IsWindow limit window_size now (current_window now window_size o)
        × (limit - (current_window now window_size o).count ≡ remaining_of now limit o)
        × (now ≤ (current_window now window_size o).window_end)
  unfolding current_window remaining_of
  current_window-IsWindow limit window_size none fits h = (
    record { counted = omega arith; ends = omega arith; accessed = omega arith },
    omega arith,
    omega arith,
  )
  current_window-IsWindow limit window_size (some wd) fits h =
      let w = h wd refl in
      elim (Bool-cases (ltb wd.window_end now)) [
        | inl e ↦ rw e (
          record { counted = omega arith; ends = omega arith; accessed = omega arith },
          omega arith,
          omega arith,
        )
        | inr e ↦ rw e (
          record {
            counted = w.counted;
            ends = omega (arith, w.ends, w.accessed);
            accessed = omega arith;
          },
          sym (sub-small limit wd.count w.counted fits),
          ground arith,
        )
      ]

  -- A request is counted exactly if it fits.
  pub take_requests-IsWindow :
      (limit window_size n : ℕ) (wd : WindowData)
      → limit + n < int_bound
      → IsWindow limit window_size now wd
      → IsWindow limit window_size now (take_requests limit n wd).0
        × ((take_requests limit n wd).0.window_end ≡ wd.window_end)
        × ((take_requests limit n wd).1 ≡ leb n (limit - wd.count) && ltb wd.count limit)
        × ((take_requests limit n wd).0.count
            ≡ (if (take_requests limit n wd).1 then wd.count + n else wd.count))
  unfolding take_requests
  take_requests-IsWindow limit window_size n wd fits w =
      let e1 =
        at_most-small limit wd.count (omega (arith, fits)) (omega (arith, fits, w.counted)) in
      let e2 = add-small wd.count n (omega (arith, fits, w.counted)) in
      let e3 =
        less-small limit (wd.count + n) (omega (arith, fits)) (omega (arith, fits, w.counted)) in
      elim (Bool-cases (leb limit wd.count)) [
        | inl full ↦ rw (e1, full) (w, refl, ground arith, refl)
        | inr room ↦ elim (Bool-cases (ltb limit (wd.count + n))) [
          | inl over ↦ rw (e1, room, e2, e3, over) (w, refl, ground arith, refl)
          | inr fit ↦
              rw (e1, room, e2, e3, fit)
                (
                  record { counted = ground arith; ends = w.ends; accessed = w.accessed },
                  refl,
                  ground arith,
                  refl,
                )
        ]
      ]
