-- ===== src/Redis.antt =====
-- The adapters that keep their state in Redis (adapters/quota-redis and adapters/limiter-redis). Redis
-- and its client are a parameter: the commands that the code uses, with what their documentation says.
-- A Lua script runs as one step. Its numbers are doubles: what is read or computed is rounded, and exact
-- up to 2^53.
pub mod Counter
pub mod Quota
pub mod Limiter
use tenantkit.Prelude.{
  ℕ, zero, suc, ◌+◌, ◌-◌, ◌*◌, ◌/◌, ◌%◌, ◌^◌, ◌≤◌, ◌<◌, min, ◌≡◌, refl, sym, ap, ◌∙◌, subst, ◌≢◌,
  ◌↔◌, ◌⊎◌, inl, inr, Bool, true, false, not, ◌&&◌, ◌||◌, Option, none, some, List, [], ◌∷◌, ◌++◌,
  map, foldr, reverse, append-nil, append_assoc, arith, ltb, leb, ◌==◌, if◌then◌else◌, Bool-cases,
  Option-cases, length, get_elem?, take, drop, replicate, any, All, length-append, take-append-drop,
  length-take, length-drop, length-replicate, take-append_left, drop-append_left,
  get_elem?-append_at, All-append, length-map, Result, ok, err, panic, ◌>>=◌, ok-injective,
  >>=-eq-ok, ℤ, pos, negsuc, is_negative, is_at_most_zero, magnitude,
}
use tenantkit.Decimal.{int_bound}
use tenantkit.Text.{Bytes, bytes_eq}

-- The text of a number is the number; a text that is none is `opaque`.
pub data Stored : Type 0 where
  number : ℕ → Stored
  opaque : Stored

-- What `tonumber` makes of the reply of GET; no number is an error of the script.
unfoldable pub count_of : Option Stored → Option ℕ
count_of none = some 0
count_of (some (number n)) = some n
count_of (some opaque) = none

-- 2^53: the doubles hold every whole number up to here.
abbrev pub exact_bound : ℕ
exact_bound = 9_007_199_254_740_992

pub record Redis : Type 1 where
  pub State : Type 0
  -- The double that Lua has for a number, and the floor of the double of a quotient.
  pub double : ℕ → ℕ
  pub floor_div : ℕ → ℕ → ℕ
  pub double-exact : (n : ℕ) → n ≤ exact_bound → double n ≡ n
  pub floor_div-exact :
      (a b : ℕ) → a ≤ exact_bound → b ≤ exact_bound → 0 < b → floor_div a b ≡ a / b
  pub get : State → Bytes → Option Stored
  -- A counter is an int64; `none` is the error that it would overflow.
  pub incr_by : State → Bytes → ℕ → State × Option ℕ
  pub expire : State → Bytes → ℕ → State
  pub set : State → Bytes → ℕ → State
  pub del : State → Bytes → State
  pub incr_by-value :
      (s : State) (k : Bytes) (n c : ℕ)
      → count_of (get s k) ≡ some c
      → c + n < int_bound
      → (incr_by s k n).1 ≡ some (c + n)
  pub get-incr_by :
      (s : State) (k j : Bytes) (n c : ℕ)
      → count_of (get s k) ≡ some c
      → c + n < int_bound
      → get (incr_by s k n).0 j ≡ (if bytes_eq k j then some (number (c + n)) else get s j)
  -- A time to live of 0 deletes the key.
  pub get-expire :
      (s : State) (k j : Bytes) (ttl : ℕ)
      → get (expire s k ttl) j ≡ (if bytes_eq k j && ttl == 0 then none else get s j)
  pub get-set :
      (s : State) (k j : Bytes) (n : ℕ)
      → get (set s k n) j ≡ (if bytes_eq k j then some (number n) else get s j)
  pub get-del :
      (s : State) (k j : Bytes) → get (del s k) j ≡ (if bytes_eq k j then none else get s j)

-- `a - b`
unfoldable pub difference : ℕ → ℕ → ℤ
difference a b = if ltb a b then negsuc (b - suc a) else pos (a - b)

-- `a - b` of two Lua numbers
unfoldable pub lua_difference : Redis → ℕ → ℕ → ℤ
lua_difference r a b =
    let x = r.double a in
    let y = r.double b in if ltb x y then negsuc (r.double (y - x) - 1) else pos (r.double (x - y))

-- `a + b` of two Lua numbers
unfoldable pub lua_sum : Redis → ℕ → ℕ → ℕ
lua_sum r a b = r.double (r.double a + r.double b)

module _ (r : Redis) (a b : ℕ) where
  pub lua_sum-exact : a + b ≤ exact_bound → lua_sum r a b ≡ a + b
  unfolding lua_sum
  lua_sum-exact h =
      rw (lua_sum, r.double-exact a (omega (arith, h)), r.double-exact b (omega (arith, h)))
        (r.double-exact (a + b) h)

  pub lua_difference-exact :
      a ≤ exact_bound → b ≤ exact_bound → lua_difference r a b ≡ difference a b
  unfolding lua_difference difference
  lua_difference-exact h k =
      rw
        (
          lua_difference,
          r.double-exact a h,
          r.double-exact b k,
          r.double-exact (b - a) (omega (arith, k)),
          r.double-exact (a - b) (omega (arith, h)),
        )
        (elim (Bool-cases (ltb a b)) [
          | inl less ↦ rw (less, difference) (ap negsuc (omega arith))
          | inr more ↦ rw (more, difference) refl
        ])
