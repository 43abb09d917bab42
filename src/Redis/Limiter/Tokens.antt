-- ===== src/Redis/Limiter/Tokens.antt =====
-- The bucket of the token bucket script: what it holds at a time, and that the script computes it.
use tenantkit.Prelude.{
  ℕ, ◌+◌, ◌-◌, ◌*◌, ◌/◌, ◌≤◌, ◌<◌, min, ◌≡◌, ap, false, Option, none, some, arith, ◌==◌,
  if◌then◌else◌, inl, inr, Bool-cases, refl,
}
use native.Mathlib.Nat.{
  mul-add, add-mul, mul-div-le, mul-le-mul_left, min-le_left, min-le_right, mul-le-mul_right,
  div-le_self,
}
use tenantkit.Redis.Limiter.{refilled, tokens_of}
use tenantkit.Redis.{Redis, exact_bound}

-- What the script computes where no number exceeds 2^53.
unfoldable pub refill_exact : ℕ → ℕ → ℕ → ℕ → ℕ
refill_exact limit window elapsed tokens =
    if window == 0 then limit else min limit (tokens + elapsed * limit / window)

unfoldable pub tokens_exact : ℕ → ℕ → ℕ → Option (ℕ × ℕ) → ℕ
unfolding refill_exact
tokens_exact limit now window none = refill_exact limit window 0 limit
tokens_exact limit now window (some (tokens, last_update)) =
    refill_exact limit window (now - last_update) tokens

module _ (limit window : ℕ) (positive : 0 < window) where
  -- The tokens that a bucket will have at a time, each counted `window` times, nothing rounded off.
  abbrev pub available : ℕ → Option (ℕ × ℕ) → ℕ
  available t none = window * limit
  available t (some (tokens, last_update)) =
      min (window * limit) (window * tokens + (t - last_update) * limit)

  -- The last update does not lie after a time, and the bucket holds no more than the limit.
  abbrev pub IsUpdated : ℕ → Option (ℕ × ℕ) → Type 0
  IsUpdated t none = Unit
  IsUpdated t (some (tokens, last_update)) = (last_update ≤ t) × (tokens ≤ limit)

  pub refill_exact-le :
      (elapsed tokens : ℕ)
      → window * refill_exact limit window elapsed tokens
        ≤ min (window * limit) (window * tokens + elapsed * limit)
  unfolding refill_exact
  refill_exact-le elapsed tokens =
      let some_window : (window == 0) ≡ false = ground (arith, positive) in
      let q = elapsed * limit / window in
      let whole = mul-div-le (elapsed * limit) window in
      let first = mul-le-mul_left window (min-le_left limit (tokens + q)) in
      let second = mul-le-mul_left window (min-le_right limit (tokens + q)) in
      rw some_window (omega (arith, first, second, whole, mul-add window tokens q))

  pub IsUpdated-later : (t now : ℕ) (o : Option (ℕ × ℕ)) → t ≤ now → IsUpdated t o → IsUpdated now o
  IsUpdated-later t now none h u = tt
  IsUpdated-later t now (some (tokens, last_update)) h (u, full) = (omega (arith, h, u), full)

  pub tokens_exact-le :
      (now : ℕ) (o : Option (ℕ × ℕ)) → window * tokens_exact limit now window o ≤ available now o
  unfolding tokens_exact
  tokens_exact-le now none = omega (arith, refill_exact-le 0 limit)
  tokens_exact-le now (some (tokens, last_update)) = refill_exact-le (now - last_update) tokens

  pub available-later :
      (t now : ℕ) (o : Option (ℕ × ℕ))
      → t ≤ now
      → IsUpdated t o
      → available now o ≤ available t o + (now - t) * limit
  available-later t now none h u = omega arith
  available-later t now (some (tokens, last_update)) h (u, full) =
      let apart : now - last_update ≡ (t - last_update) + (now - t) = omega (arith, h, u) in
      omega (arith, ap (λ (d : ℕ). d * limit) apart, add-mul (t - last_update) (now - t) limit)

  pub available-taken :
      (now tokens n : ℕ)
      → n ≤ tokens
      → available now (some (tokens - n, now)) + window * n ≤ window * tokens
  available-taken now tokens n h =
      let still : now - now ≡ 0 = omega arith in
      let parts : (tokens - n) + n ≡ tokens = omega (arith, h) in
      omega (
        arith,
        ap (λ (d : ℕ). d * limit) still,
        ap (λ (d : ℕ). window * d) parts,
        mul-add window (tokens - n) n,
        min-le_right (window * limit) (window * (tokens - n) + (now - now) * limit),
      )

pub refill_exact-le-limit :
    (limit window elapsed tokens : ℕ) → refill_exact limit window elapsed tokens ≤ limit
unfolding refill_exact
refill_exact-le-limit limit window elapsed tokens = elim (Bool-cases (window == 0)) [
  | inl e ↦ rw (e, refill_exact) (omega arith)
  | inr e ↦ rw (e, refill_exact) (min-le_left limit (tokens + elapsed * limit / window))
]

pub tokens_exact-le-limit :
    (limit now window : ℕ) (o : Option (ℕ × ℕ)) → tokens_exact limit now window o ≤ limit
unfolding tokens_exact
tokens_exact-le-limit limit now window none = refill_exact-le-limit limit window 0 limit
tokens_exact-le-limit limit now window (some (tokens, last_update)) =
    refill_exact-le-limit limit window (now - last_update) tokens

-- The limit times the seconds since 1970, and with it all that the script computes, is at most 2^53.
pub record IsExact (limit window stop : ℕ) : Type 0 where
  pub window_fits : window ≤ exact_bound
  pub time_fits : stop ≤ exact_bound
  pub product_fits : limit + stop * limit ≤ exact_bound

module _ (r : Redis) (limit window stop : ℕ) (positive : 0 < window)
    (exact : IsExact limit window stop) where
  pub refilled-exact :
      (elapsed tokens : ℕ)
      → elapsed ≤ stop
      → tokens ≤ limit
      → refilled r limit window elapsed tokens ≡ refill_exact limit window elapsed tokens
  unfolding refilled refill_exact
  refilled-exact elapsed tokens h k =
      let some_window : (window == 0) ≡ false = ground (arith, positive) in
      let product : elapsed * limit ≤ stop * limit = mul-le-mul_right limit h in
      let quotient : elapsed * limit / window ≤ elapsed * limit =
        div-le_self (elapsed * limit) window in
      let fits = exact.product_fits in
      rw
        (
          some_window,
          r.double-exact (elapsed * limit) (omega (arith, product, fits)),
          r.floor_div-exact (elapsed * limit) window (omega (arith, product, fits))
              exact.window_fits positive,
          r.double-exact (tokens + elapsed * limit / window)
              (omega (arith, product, quotient, fits, k)),
        )
        refl

  pub tokens_of-exact :
      (now : ℕ) (o : Option (ℕ × ℕ))
      → now ≤ stop
      → IsUpdated limit window positive now o
      → tokens_of r limit now window o ≡ tokens_exact limit now window o
  unfolding tokens_of tokens_exact
  tokens_of-exact now none h u = refilled-exact 0 limit (omega arith) (omega arith)
  tokens_of-exact now (some (tokens, last_update)) h (u, full) =
      rw (r.double-exact (now - last_update) (omega (arith, h, exact.time_fits)))
        (refilled-exact (now - last_update) tokens (omega (arith, h)) full)
