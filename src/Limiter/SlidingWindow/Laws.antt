-- ===== src/Limiter/SlidingWindow/Laws.antt =====
-- What a sliding window grants to a key.
use tenantkit.Prelude.{
  ℕ, zero, suc, ◌+◌, ◌≤◌, ◌<◌, ◌≡◌, refl, inl, inr, Option, none, some, List, [], ◌∷◌, ◌++◌, arith,
  ltb, Bool-cases, length, replicate, All,
}
use tenantkit.Assoc.{lookup, text_eq}
use tenantkit.Assoc.Keyed.{
  IsKeyed, unless, lookup-delete_where, delete_where-IsKeyed, delete_where-All,
}
use tenantkit.Assoc.Laws.{All-lookup}
use tenantkit.Decimal.{int_bound}
use tenantkit.Limiter.{day, is_due}
use tenantkit.Limiter.SlidingWindow.{
  SlidingWindow, SlidingRequest, is_stale, cleanup_if_due, cleanup, valid_timestamps, count_valid,
  remaining_of, remaining,
}
use tenantkit.Text.{Bytes}
use tenantkit.Word.{sub-small}

-- A history is no longer than the limit and was read after all its requests; `t` is the last reading
-- of the clock.
pub record IsRequest (limit t : ℕ) (req : SlidingRequest) : Type 0 where
  pub counted : length req.timestamps ≤ limit
  pub before : All (λ ts. ts ≤ req.last_read) req.timestamps
  pub read : req.last_read ≤ t

-- The window is no longer than the 24 hours after which `cleanup` deletes.
pub record IsSlidingWindow (t : ℕ) (sw : SlidingWindow) : Type 0 where
  pub limit_fits : sw.limit < int_bound
  pub positive : 0 < sw.window_size
  pub short : sw.window_size ≤ day
  pub keyed : IsKeyed sw.requests
  pub requests : All (λ slot. IsRequest sw.limit t slot.1) sw.requests

module _ (now : ℕ) where
  later-All :
      (limit t : ℕ) (m : List (Bytes × SlidingRequest))
      → t ≤ now
      → All (λ slot. IsRequest limit t slot.1) m
      → All (λ slot. IsRequest limit now slot.1) m
  later-All limit t [] le h = tt
  later-All limit t (s ∷ m) le (r, h) = (
    record { counted = r.counted; before = r.before; read = omega (arith, r.read, le) },
    later-All limit t m le h,
  )

  pub cleanup_if_due-IsSlidingWindow :
      (t : ℕ) (sw : SlidingWindow)
      → IsSlidingWindow t sw
      → t ≤ now
      → IsSlidingWindow now (cleanup_if_due now sw)
  unfolding cleanup_if_due cleanup
  cleanup_if_due-IsSlidingWindow t sw w le =
      let requests = later-All sw.limit t sw.requests le w.requests in
      elim (Bool-cases (is_due sw.last_cleanup_time now)) [
        | inl d ↦ rw d (record {
          limit_fits = w.limit_fits;
          positive = w.positive;
          short = w.short;
          keyed = delete_where-IsKeyed (is_stale now) sw.requests w.keyed;
          requests = delete_where-All _ (is_stale now) sw.requests requests;
        })
        | inr d ↦ rw d (record {
          limit_fits = w.limit_fits;
          positive = w.positive;
          short = w.short;
          keyed = w.keyed;
          requests = requests;
        })
      ]

  count_stale :
      (window_size last_read : ℕ) (timestamps : List ℕ)
      → last_read + window_size < now
      → All (λ ts. ts ≤ last_read) timestamps
      → count_valid now window_size timestamps ≡ 0
  unfolding count_valid
  count_stale window_size last_read [] h k = refl
  count_stale window_size last_read (ts ∷ timestamps) h (le, k) =
      ground (arith, count_stale window_size last_read timestamps h k, h, le)

  -- A history that is deleted has no requests in the window.
  unless-stale :
      (limit window_size : ℕ) (o : Option SlidingRequest)
      → limit < int_bound
      → window_size ≤ day
      → ((req : SlidingRequest) → o ≡ some req → IsRequest limit now req)
      → remaining_of now limit window_size (unless (is_stale now) o)
        ≡ remaining_of now limit window_size o
  unfolding is_stale remaining_of
  unless-stale limit window_size none fits short h = refl
  unless-stale limit window_size (some req) fits short h =
      let r = h req refl in
      elim (Bool-cases (ltb (req.last_read + day) now)) [
        | inl s ↦
            let gone =
              count_stale window_size req.last_read req.timestamps (ground (arith, short))
                r.before in
            rw (s, gone) (omega (arith, sub-small limit 0 (omega arith) fits))
        | inr s ↦ rw s refl
      ]

  pub cleanup-remaining :
      (t : ℕ) (sw : SlidingWindow) (key : Bytes)
      → IsSlidingWindow t sw
      → t ≤ now
      → remaining now (cleanup_if_due now sw) key ≡ remaining now sw key
  unfolding remaining cleanup_if_due cleanup
  cleanup-remaining t sw key w le = elim (Bool-cases (is_due sw.last_cleanup_time now)) [
    | inr d ↦ rw d refl
    | inl d ↦
        rw (d, lookup-delete_where key (is_stale now) sw.requests w.keyed)
          (unless-stale sw.limit sw.window_size (lookup key sw.requests) w.limit_fits w.short
            (λ req e.
              All-lookup (λ slot. IsRequest sw.limit now slot.1) key req sw.requests
                (later-All sw.limit t sw.requests le w.requests) e))
  ]

  pub count-valid_timestamps :
      (window_size : ℕ) (timestamps : List ℕ)
      → (count_valid now window_size timestamps
          ≡ length (valid_timestamps now window_size timestamps))
        × (count_valid now window_size (valid_timestamps now window_size timestamps)
            ≡ length (valid_timestamps now window_size timestamps))
        × (length (valid_timestamps now window_size timestamps) ≤ length timestamps)
  unfolding count_valid valid_timestamps
  count-valid_timestamps window_size [] = (refl, refl, omega arith)
  count-valid_timestamps window_size (ts ∷ timestamps) =
      let (a, b, c) = count-valid_timestamps window_size timestamps in
      elim (Bool-cases (ltb now (ts + window_size))) [
        | inl v ↦ rw v (omega (arith, a), rw v (omega (arith, b)), omega (arith, c))
        | inr v ↦ rw v (a, b, omega (arith, c))
      ]

  pub count-replicate :
      (window_size n : ℕ) → 0 < window_size → count_valid now window_size (replicate n now) ≡ n
  unfolding count_valid
  count-replicate window_size zero h = refl
  count-replicate window_size (suc n) h = ground (arith, h, count-replicate window_size n h)

  pub count-append :
      (window_size : ℕ) (xs ys : List ℕ)
      → count_valid now window_size (xs ++ ys)
        ≡ count_valid now window_size xs + count_valid now window_size ys
  unfolding count_valid
  count-append window_size [] ys = omega arith
  count-append window_size (x ∷ xs) ys = ground (arith, count-append window_size xs ys)
