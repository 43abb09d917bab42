-- ===== src/Limiter/TokenBucket/Laws.antt =====
-- The tokens of a bucket: never more than the burst size, and never spent twice.
use tenantkit.Prelude.{
  ℕ, ◌-◌, ◌≤◌, ◌<◌, ◌≡◌, refl, inl, inr, true, false, Option, none, some, arith, ltb, Bool-cases,
  All,
}
use tenantkit.Assoc.{lookup, text_eq}
use tenantkit.Assoc.Keyed.{delete_where-All}
use tenantkit.Assoc.Laws.{All-insert}
use tenantkit.Decimal.{int_bound}
use tenantkit.Limiter.{is_due}
use tenantkit.Limiter.FixedWindow.Grants.{positive-at_most}
use tenantkit.Limiter.TokenBucket.{
  Float, TokenData, TokenBucket, is_stale, cleanup, cleanup_if_due, refill, current, take_tokens,
  allow_n,
}
use tenantkit.Text.{Bytes}

module _ (f : Float) where
  open f use {F, of_int, greater, reaches, sub, irreflexive, sub-le, of_int_nonneg, of_int-lt}

  -- The tokens do not exceed a number.
  abbrev IsBounded : ℕ → TokenData f → Type 0
  IsBounded burst d = greater d.tokens (of_int burst) ≡ false

  -- No bucket holds more than the burst size.
  abbrev pub IsTokenBucket : TokenBucket f → Type 0
  IsTokenBucket tb = All (λ slot. IsBounded tb.burst_size slot.1) tb.buckets

  refill-bounded :
      (now burst : ℕ) (rps : F) (d : TokenData f)
      → greater (refill f now rps burst d) (of_int burst) ≡ false
  unfolding refill
  refill-bounded now burst rps d =
      elim (Bool-cases
        (greater (f.add d.tokens (f.mul (f.seconds (now - d.last_refil)) rps)) (of_int burst))) [
          | inl over ↦ rw over (irreflexive (of_int burst))
          | inr fits ↦ rw fits fits
        ]

  current-bounded :
      (now : ℕ) (tb : TokenBucket f) (o : Option (TokenData f))
      → greater (current f now tb o) (of_int tb.burst_size) ≡ false
  unfolding current
  current-bounded now tb none = refill-bounded now tb.burst_size tb.rps _
  current-bounded now tb (some d) = refill-bounded now tb.burst_size tb.rps d

  take_tokens-bounded :
      (n burst : ℕ) (tokens : F)
      → n < int_bound
      → greater tokens (of_int burst) ≡ false
      → greater (take_tokens f n tokens).0 (of_int burst) ≡ false
  unfolding take_tokens
  take_tokens-bounded n burst tokens small h = elim (Bool-cases (reaches tokens (of_int n))) [
    | inl enough ↦ rw enough (sub-le tokens (of_int n) (of_int burst) h (of_int_nonneg n small))
    | inr short ↦ rw short h
  ]

  take_tokens-le :
      (n burst : ℕ) (tokens : F)
      → n < int_bound
      → burst < 9_007_199_254_740_992
      → greater tokens (of_int burst) ≡ false
      → (take_tokens f n tokens).1 ≡ true
      → n ≤ burst
  unfolding take_tokens
  take_tokens-le n burst tokens small exact h granted = elim (Bool-cases (ltb burst n)) [
    | inl more ↦
        let short = of_int-lt tokens burst n h exact (ground arith) small in
        absurd (let bad = rw short at granted in cc)
    | inr fits ↦ ground arith
  ]

  cleanup_if_due-burst :
      (now : ℕ) (tb : TokenBucket f) → (cleanup_if_due f now tb).burst_size ≡ tb.burst_size
  unfolding cleanup_if_due cleanup
  cleanup_if_due-burst now tb = elim (Bool-cases (is_due tb.last_cleanup_time now)) [
    | inl due ↦ rw due refl
    | inr early ↦ rw early refl
  ]

  cleanup_if_due-IsTokenBucket :
      (now : ℕ) (tb : TokenBucket f)
      → IsTokenBucket tb
      → IsTokenBucket (cleanup_if_due f now tb)
        × ((cleanup_if_due f now tb).burst_size ≡ tb.burst_size)
  unfolding cleanup_if_due cleanup
  cleanup_if_due-IsTokenBucket now tb h = elim (Bool-cases (is_due tb.last_cleanup_time now)) [
    | inl due ↦ rw due (
      delete_where-All (λ slot. IsBounded tb.burst_size slot.1) (is_stale f now) tb.buckets h,
      refl,
    )
    | inr early ↦ rw early (h, refl)
  ]

-- A call for a positive number of tokens leaves no bucket above the burst size, which stays.
pub allow_n-IsTokenBucket :
    (f : Float) (now : ℕ) (tb : TokenBucket f) (key : Bytes) (n : ℕ)
    → IsTokenBucket f tb
    → 0 < n
    → n < int_bound
    → IsTokenBucket f (allow_n f now tb key n).0
      × ((allow_n f now tb key n).0.burst_size ≡ tb.burst_size)
unfolding allow_n
allow_n-IsTokenBucket f now tb key n w positive small =
    let clean = cleanup_if_due f now tb in
    let (kept, same) = cleanup_if_due-IsTokenBucket f now tb w in
    let tokens = current f now clean (lookup key clean.buckets) in
    let bounded = current-bounded f now clean (lookup key clean.buckets) in
    let stored : TokenData f = record { tokens = (take_tokens f n tokens).0; last_refil = now } in
    rw (positive-at_most n positive small) (
      All-insert (λ slot. IsBounded f clean.burst_size slot.1) key stored clean.buckets kept
          (take_tokens-bounded f n clean.burst_size tokens small bounded),
      same,
    )

-- A token bucket in memory never grants a positive number of tokens above its burst size, if that
-- is below 2^53, whatever its state.
pub allow_n-le-burst :
    (f : Float) (now : ℕ) (tb : TokenBucket f) (key : Bytes) (n : ℕ)
    → 0 < n
    → n < int_bound
    → tb.burst_size < 9_007_199_254_740_992
    → (allow_n f now tb key n).1 ≡ true
    → n ≤ tb.burst_size
unfolding allow_n
allow_n-le-burst f now tb key n positive small exact granted =
    let clean = cleanup_if_due f now tb in
    let same = cleanup_if_due-burst f now tb in
    let tokens = current f now clean (lookup key clean.buckets) in
    let fits =
      take_tokens-le f n clean.burst_size tokens small (rw same exact)
        (current-bounded f now clean (lookup key clean.buckets))
        (rw (positive-at_most n positive small) at granted) in
    rw (← same) fits
