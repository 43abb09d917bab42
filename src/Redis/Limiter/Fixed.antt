-- ===== src/Redis/Limiter/Fixed.antt =====
-- The fixed windows in Redis: what runs of the script let through before the key expires, and what
-- windows below a second do.
use tenantkit.Prelude.{
  ℕ, ◌+◌, ◌/◌, ◌≤◌, ◌<◌, ◌≡◌, refl, ◌⊎◌, inl, inr, true, false, none, List, [], ◌∷◌, arith, leb,
  Bool-cases, ok, pos, is_at_most_zero, All,
}
use native.Mathlib.Nat.{zero-add, add_assoc}
use tenantkit.Redis.{Redis, count_of, difference, exact_bound, lua_sum-exact, lua_difference-exact}
use tenantkit.Redis.Counter.{Uses, consumed, consumed-Uses, consumed-gone}
use tenantkit.Redis.Limiter.{
  Structures, LimiterRedis, fixed_window, fixed_current, fixed_window_script, window_seconds,
  run_script, allowed_of, allow_n,
}
use tenantkit.Redis.Limiter.Bucket.{granted}
use tenantkit.Text.{Bytes}

module _ (r : Redis) (c : Structures r) where
  -- A run counts what it lets through, up to the limit, or changes nothing.
  fixed_step :
      (s : r.State) (key : Bytes) (limit window n current : ℕ)
      → Uses r s key current
      → current ≤ limit
      → limit + n ≤ exact_bound
      → ((current + n ≤ limit)
          × (fixed_window_script r c s key limit window n
              ≡ (consumed r s key n window, ok (true, difference limit (current + n)))))
        ⊎ ((limit < current + n)
            × (fixed_window_script r c s key limit window n
                ≡ (s, ok (false, difference limit current))))
  unfolding fixed_window_script fixed_current consumed
  fixed_step s key limit window n current uses below small =
      let exact_limit = r.double-exact limit (omega (arith, small)) in
      let exact_n = r.double-exact n (omega (arith, small)) in
      let exact_sum = lua_sum-exact r current n (omega (arith, small, below)) in
      elim (Bool-cases (leb (current + n) limit)) [
        | inl fits ↦
            let count = r.double-exact (current + n) (omega (arith, small, below)) in
            let counted = r.incr_by-value s key n current uses (omega (arith, small, below)) in
            let left =
              lua_difference-exact r limit (current + n) (omega (arith, small))
                (omega (arith, small, below)) in
            inl (
              ground arith,
              rw (uses, exact_n, exact_limit, exact_sum, fits, counted, count, left)
                  (rw (exact_n, consumed, counted) refl),
            )
        | inr over ↦
            let left =
              lua_difference-exact r limit current (omega (arith, small))
                (omega (arith, small, below)) in
            inr (ground arith, rw (uses, exact_limit, exact_sum, over, left) refl)
      ]

-- What runs of the script for so many requests each let through.
unfoldable pub fixed_all : (r : Redis) → Structures r → Bytes → ℕ → ℕ → r.State → List ℕ → ℕ
fixed_all r c key limit window s [] = 0
fixed_all r c key limit window s (n ∷ ns) =
    let (after, reply) = fixed_window_script r c s key limit window n in
    granted n reply + fixed_all r c key limit window after ns

-- Runs of the fixed window script before the key expires, its window at least a second, let through no
-- more than the limit leaves.
pub fixed_all-le-limit :
    (r : Redis) (c : Structures r) (key : Bytes) (limit window current : ℕ) (s : r.State)
    (ns : List ℕ)
    → 0 < window
    → Uses r s key current
    → current ≤ limit
    → All (λ n. limit + n ≤ exact_bound) ns
    → current + fixed_all r c key limit window s ns ≤ limit
unfolding fixed_all
fixed_all-le-limit r c key limit window current s [] lasting uses fits exact = omega (arith, fits)
fixed_all-le-limit r c key limit window current s (n ∷ ns) lasting uses fits (small, exact) =
    elim (fixed_step r c s key limit window n current uses fits small) [
      | inl (h, e) ↦
          rw (e, ← add_assoc)
            (fixed_all-le-limit r c key limit window (current + n) (consumed r s key n window) ns
              lasting
              (consumed-Uses r s key n window current lasting uses (omega (arith, small, fits))) h
              exact)
      | inr (h, e) ↦
          rw (e, zero-add)
            (fixed_all-le-limit r c key limit window current s ns lasting uses fits exact)
    ]

-- With a window below a second a request within the limit is let through on a key that Redis does not
-- have, and Redis does not have it afterwards.
pub subsecond-unlimited :
    (r : Redis) (c : Structures r) (lr : LimiterRedis) (now n : ℕ) (s : r.State) (key : Bytes)
    → lr.algorithm ≡ fixed_window
    → lr.window < 1_000_000_000
    → r.get s key ≡ none
    → 0 < n
    → n ≤ lr.limit
    → lr.limit + n ≤ exact_bound
    → ((allow_n r c lr none now s key (pos n)).1 ≡ ok true)
      × (r.get (allow_n r c lr none now s key (pos n)).0 key ≡ none)
unfolding allow_n run_script allowed_of window_seconds count_of
subsecond-unlimited r c lr now n s key fixed short fresh positive fits small =
    let unused : Uses r s key 0 = rw fresh refl in
    let zero_window : lr.window / 1_000_000_000 ≡ 0 = omega (arith, short) in
    let asked : is_at_most_zero (pos n) ≡ false = ground (arith, positive) in
    elim (fixed_step r c s key lr.limit (window_seconds lr) n 0 unused (omega arith) small) [
      | inl (h, e) ↦
          rw (asked, fixed, e)
            (
              refl,
              consumed-gone r s key n (window_seconds lr) unused (omega (arith, small)) zero_window,
            )
      | inr (h, e) ↦ absurd (omega (arith, h, fits))
    ]
