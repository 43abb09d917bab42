-- ===== src/Redis/Limiter/Bucket.antt =====
-- The rate of the token bucket in Redis: what a sequence of runs of the script lets through.
use tenantkit.Prelude.{
  ℕ, ◌+◌, ◌-◌, ◌*◌, ◌≤◌, ◌<◌, ◌≡◌, ap, false, none, some, arith, ◌==◌, List, ok, All, ◌∷◌, err, [],
  panic, inl, ◌⊎◌, inr, Bool-cases, leb, ◌∙◌, true, refl,
}
use native.Mathlib.Nat.{zero-add, mul-add, add-mul}
use tenantkit.Redis.Limiter.{Reply, Structures, token_bucket_script}
use tenantkit.Redis.{Redis, exact_bound}
use tenantkit.Text.{Bytes}
use tenantkit.Text.Equality.{bytes_eq_refl}
use tenantkit.Redis.Limiter.Tokens.{
  tokens_exact, available, IsUpdated, tokens_exact-le, IsUpdated-later, available-later,
  available-taken, tokens_exact-le-limit, IsExact, tokens_of-exact,
}

-- The tokens that a run has granted.
abbrev pub granted : ℕ → Reply → ℕ
granted n (ok (true, left)) = n
granted n (ok (false, left)) = 0
granted n (err e) = 0
granted n panic = 0

-- What runs of the script at these times, for so many tokens each, grant.
unfoldable pub bucket_all : (r : Redis) → Structures r → Bytes → ℕ → ℕ → r.State → List (ℕ × ℕ) → ℕ
bucket_all r c key limit window s [] = 0
bucket_all r c key limit window s (call ∷ calls) =
    let (after, reply) = token_bucket_script r c s key limit call.0 window call.1 in
    granted call.1 reply + bucket_all r c key limit window after calls

-- The times do not go back, and end by a time.
abbrev pub IsInOrder : ℕ → ℕ → List (ℕ × ℕ) → Type 0
IsInOrder t stop [] = t ≤ stop
IsInOrder t stop (call ∷ calls) = (t ≤ call.0) × IsInOrder call.0 stop calls

in_order_le : (t stop : ℕ) (calls : List (ℕ × ℕ)) → IsInOrder t stop calls → t ≤ stop
in_order_le t stop [] h = h
in_order_le t stop (call ∷ calls) (h, hs) = omega (arith, h, in_order_le call.0 stop calls hs)

module _ (r : Redis) (c : Structures r) (key : Bytes) (limit window stop : ℕ)
    (positive : 0 < window) (exact : IsExact limit window stop) where
  -- A run grants what the bucket holds and writes what is left, or changes nothing.
  script_step :
      (s : r.State) (now n : ℕ)
      → now ≤ stop
      → n ≤ exact_bound
      → IsUpdated limit window positive now (c.hmget s key)
      → ((n ≤ tokens_exact limit now window (c.hmget s key))
          × (granted n (token_bucket_script r c s key limit now window n).1 ≡ n)
          × (c.hmget (token_bucket_script r c s key limit now window n).0 key
              ≡ some (tokens_exact limit now window (c.hmget s key) - n, now)))
        ⊎ ((token_bucket_script r c s key limit now window n).0 ≡ s)
          × (granted n (token_bucket_script r c s key limit now window n).1 ≡ 0)
  unfolding token_bucket_script
  script_step s now n h small u =
      let tokens = tokens_exact limit now window (c.hmget s key) in
      let lasting : (window == 0) ≡ false = ground (arith, positive) in
      let fits = exact.product_fits in
      let below = tokens_exact-le-limit limit now window (c.hmget s key) in
      let exact_n = r.double-exact n small in
      let exact_now = r.double-exact now (omega (arith, h, exact.time_fits)) in
      let exact_limit = r.double-exact limit (omega (arith, fits)) in
      let exact_window = r.double-exact window exact.window_fits in
      let exact_tokens =
        tokens_of-exact r limit window stop positive exact now (c.hmget s key) h u in
      let exact_left = r.double-exact (tokens - n) (omega (arith, fits, below)) in
      elim (Bool-cases (leb n tokens)) [
        | inl enough ↦
            rw (exact_n, exact_now, exact_limit, exact_window, exact_tokens, exact_left, enough)
              (inl (
                ground arith,
                refl,
                c.hmget-expire (c.hmset s key (tokens - n, now)) key key window
                    ∙ rw
                        (
                          lasting,
                          bytes_eq_refl key,
                          c.hmget-hmset s key key (tokens - n, now),
                          bytes_eq_refl key,
                        )
                        refl,
              ))
        | inr short ↦
            rw (exact_n, exact_now, exact_limit, exact_window, exact_tokens, short)
              (inr (refl, refl))
      ]

  bucket_all-le :
      (calls : List (ℕ × ℕ)) (s : r.State) (t : ℕ)
      → IsUpdated limit window positive t (c.hmget s key)
      → IsInOrder t stop calls
      → All (λ call. call.1 ≤ exact_bound) calls
      → window * bucket_all r c key limit window s calls
        ≤ available limit window positive t (c.hmget s key) + (stop - t) * limit
  unfolding bucket_all
  bucket_all-le [] s t u h small = omega arith
  bucket_all-le (call ∷ calls) s t u (le, h) (fits, small) =
      let o = c.hmget s key in
      let now = call.0 in
      let n = call.1 in
      let later = available-later limit window positive t now o le u in
      let end = in_order_le now stop calls h in
      let apart : stop - t ≡ (now - t) + (stop - now) = omega (arith, le, end) in
      let span = ap (λ (d : ℕ). d * limit) apart in
      let both = add-mul (now - t) (stop - now) limit in
      let updated = IsUpdated-later limit window positive t now o le u in
      elim (script_step s now n end fits updated) [
        | inl (enough, grant, left) ↦
            let tokens = tokens_exact limit now window o in
            let below = tokens_exact-le-limit limit now window o in
            let next = (token_bucket_script r c s key limit now window n).0 in
            let rest = rw left at (
              bucket_all-le calls next now (rw left (omega arith, omega (arith, below))) h small) in
            rw grant (
              omega (
                arith,
                later,
                span,
                both,
                rest,
                mul-add window n (bucket_all r c key limit window next calls),
                available-taken limit window positive now tokens n enough,
                tokens_exact-le limit window positive now o,
              ))
        | inr (same, nothing) ↦
            let rest = bucket_all-le calls s now updated h small in
            rw (same, nothing)
              (omega (
                arith,
                later,
                span,
                both,
                rest,
                ap (λ (d : ℕ). window * d) (zero-add (bucket_all r c key limit window s calls)),
              ))
      ]

-- Runs of the token bucket script on a key that Redis does not have at the beginning, at times that
-- do not go back, grant in all no more tokens than the limit and what the limit per window makes of
-- the time from first to last. The window is at least a second, and window, last time, each
-- request, and the limit times one more than the last time are at most 2^53, where Lua numbers are
-- exact.
pub bucket_all-rate :
    (r : Redis) (c : Structures r) (key : Bytes) (limit window t stop : ℕ) (s : r.State)
    (calls : List (ℕ × ℕ))
    → 0 < window
    → IsExact limit window stop
    → c.hmget s key ≡ none
    → IsInOrder t stop calls
    → All (λ call. call.1 ≤ exact_bound) calls
    → window * bucket_all r c key limit window s calls ≤ (window + (stop - t)) * limit
bucket_all-rate r c key limit window t stop s calls positive exact fresh h small =
    let below =
      rw fresh at
        (bucket_all-le r c key limit window stop positive exact calls s t (rw fresh tt) h small) in
    omega (arith, below, add-mul window (stop - t) limit)
