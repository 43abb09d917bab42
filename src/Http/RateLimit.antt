-- ===== src/Http/RateLimit.antt =====
-- adapters/http-stdlib/middleware_ratelimit.go and ratelimit_config.go: the middleware that asks a
-- limiter before the next handler runs. The limiter is any of the port's, with its state passed on.
pub mod Laws
use tenantkit.Prelude.{
  ℕ, zero, suc, ◌+◌, ◌-◌, ◌*◌, ◌/◌, ◌%◌, ◌^◌, ◌≤◌, ◌<◌, min, ◌≡◌, refl, sym, ap, ◌∙◌, subst, ◌≢◌,
  ◌↔◌, ◌⊎◌, inl, inr, Bool, true, false, not, ◌&&◌, ◌||◌, Option, none, some, List, [], ◌∷◌, ◌++◌,
  map, foldr, reverse, append-nil, append_assoc, arith, ltb, leb, ◌==◌, if◌then◌else◌, Bool-cases,
  Option-cases, length, get_elem?, take, drop, replicate, any, All, length-append, take-append-drop,
  length-take, length-drop, length-replicate, take-append_left, drop-append_left,
  get_elem?-append_at, All-append, length-map, Result, ok, err, panic, ◌>>=◌, ok-injective,
  >>=-eq-ok, ℤ, pos, negsuc, is_negative, is_at_most_zero, magnitude,
}
use tenantkit.Http.{Request}
use tenantkit.Http.Middleware.{should_skip, get_tenant_id}
use tenantkit.Text.{Bytes, bytes_eq}

-- What the middleware uses of ports.Limiter; the error of a call is a number. `now` is the reading of
-- the clock, and the value that comes with an error is the second part.
pub record Limiter (S : Type 0) : Type 0 where
  pub allow : ℕ → S → Bytes → S × (ℕ ⊎ Bool)
  pub remaining : ℕ → S → Bytes → S × ℤ

pub record RateLimitOptions : Type 0 where
  pub limit_per_window : ℤ
  pub reset_window : ℤ

abbrev pub minute : ℤ
minute = pos 60_000_000_000

unfoldable pub default_rate_limit_options : RateLimitOptions
default_rate_limit_options = record { limit_per_window = pos 100; reset_window = minute }

unfoldable pub strict_rate_limit_options : RateLimitOptions
strict_rate_limit_options = record { limit_per_window = pos 30; reset_window = minute }

unfoldable pub generous_rate_limit_options : RateLimitOptions
generous_rate_limit_options = record { limit_per_window = pos 500; reset_window = minute }

unfoldable pub per_second_rate_limit_options : RateLimitOptions
per_second_rate_limit_options = record {
  limit_per_window = pos 10;
  reset_window = pos 1_000_000_000;
}

unfoldable pub custom_rate_limit_options : ℤ → ℤ → RateLimitOptions
custom_rate_limit_options limit_per_window reset_window = record {
  limit_per_window = if is_at_most_zero limit_per_window then pos 100 else limit_per_window;
  reset_window = if is_at_most_zero reset_window then minute else reset_window;
}

-- The tenant of the request, or its address.
unfoldable pub default_key : Request → Bytes
default_key r = elim (get_tenant_id r) [
  | ok tenant_id ↦ if bytes_eq tenant_id [] then r.remote_addr else tenant_id
  | err e ↦ r.remote_addr
  | panic ↦ r.remote_addr
]

-- What is sent: the header fields that the middleware adds, and what a handler does. `limited` is
-- OnLimitExceeded with the requests that remain, the reading of the clock, and the reset window.
pub data Reply {ℓ} (R : Type ℓ) : Type ℓ where
  forwarded : R → Reply R
  forwarded_with : ℤ → ℤ → R → Reply R
  limited : ℤ → ℕ → ℤ → Reply R

pub record RateLimit (S : Type 0) : Type 0 where
  pub limiter : Limiter S
  pub key_extractor : Request → Bytes
  pub skip_paths : List Bytes
  pub options : RateLimitOptions

-- Fields that may be nil are options; `none` is the error that a limiter is required.
unfoldable pub new_rate_limit_middleware :
    {S : Type 0}
    → Option (Limiter S)
    → Option (Request → Bytes)
    → List Bytes
    → Option RateLimitOptions
    → Option (RateLimit S)
new_rate_limit_middleware limiter key_extractor skip_paths options = elim limiter [
  | none ↦ none
  | some l ↦ some (record {
    limiter = l;
    key_extractor = elim key_extractor [ none ↦ default_key | some f ↦ f ];
    skip_paths = skip_paths;
    options = elim options [ none ↦ default_rate_limit_options | some o ↦ o ];
  })
]

module _ {ℓ} {S : Type 0} {R : Type ℓ} (m : RateLimit S) (next : Request → R) where
  -- What follows the answer of the limiter. An error lets the request pass.
  unfoldable pub answered : ℕ → Request → Bytes → S × (ℕ ⊎ Bool) → S × Reply R
  answered now r key (s, inr true) =
      let (after, left) = m.limiter.remaining now s key in
      (after, forwarded_with left m.options.limit_per_window (next r))
  answered now r key (s, inr false) =
      let (after, left) = m.limiter.remaining now s key in
      (after, limited left now m.options.reset_window)
  answered now r key (s, inl e) = (s, forwarded (next r))

  unfoldable pub handler : ℕ → S → Request → S × Reply R
  handler now s r =
      let key = m.key_extractor r in
      if should_skip m.skip_paths r.path
      then (s, forwarded (next r))
      else answered now r key (m.limiter.allow now s key)
