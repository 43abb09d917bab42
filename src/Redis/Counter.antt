-- ===== src/Redis/Counter.antt =====
-- A counter in Redis: INCRBY, and EXPIRE on the first usage, which two scripts share.
use tenantkit.Prelude.{
  ℕ, ◌+◌, ◌<◌, ◌≡◌, refl, ◌∙◌, inl, inr, Bool, true, false, none, some, arith, ◌==◌, if◌then◌else◌,
  Bool-cases,
}
use tenantkit.Decimal.{int_bound}
use tenantkit.Redis.{Redis, count_of, number}
use tenantkit.Text.{Bytes, bytes_eq}
use tenantkit.Text.Equality.{bytes_eq_refl}

module _ (r : Redis) where
  -- The usage under a key.
  abbrev pub Uses : r.State → Bytes → ℕ → Type 0
  Uses s key c = count_of (r.get s key) ≡ some c

  -- A time to live that is not 0 leaves what is stored.
  expire-get :
      (b : Bool) (s : r.State) (key j : Bytes) (ttl : ℕ)
      → 0 < ttl
      → r.get (if b then r.expire s key ttl else s) j ≡ r.get s j
  expire-get false s key j ttl h = refl
  expire-get true s key j ttl h =
      let lasting : (ttl == 0) ≡ false = ground (arith, h) in
      r.get-expire s key j ttl
      ∙ elim (Bool-cases (bytes_eq key j)) [ inl e ↦ rw (e, lasting) refl | inr e ↦ rw e refl ]

  -- The usage counted, and with the first usage the time to live.
  unfoldable pub consumed : r.State → Bytes → ℕ → ℕ → r.State
  consumed s key amount ttl =
      let (counted, reply) = r.incr_by s key amount in
      elim reply [
        | none ↦ counted
        | some new_usage ↦ if new_usage == amount then r.expire counted key ttl else counted
      ]

  pub consumed-get :
      (s : r.State) (key j : Bytes) (amount ttl c : ℕ)
      → 0 < ttl
      → Uses s key c
      → c + amount < int_bound
      → r.get (consumed s key amount ttl) j
        ≡ (if bytes_eq key j then some (number (c + amount)) else r.get s j)
  unfolding consumed
  consumed-get s key j amount ttl c h uses fits =
      rw (consumed, r.incr_by-value s key amount c uses fits)
        (expire-get (c + amount == amount) (r.incr_by s key amount).0 key j ttl h
          ∙ r.get-incr_by s key j amount c uses fits)

  pub consumed-Uses :
      (s : r.State) (key : Bytes) (amount ttl c : ℕ)
      → 0 < ttl
      → Uses s key c
      → c + amount < int_bound
      → Uses (consumed s key amount ttl) key (c + amount)
  unfolding count_of
  consumed-Uses s key amount ttl c h uses fits =
      rw (consumed-get s key key amount ttl c h uses fits, bytes_eq_refl key) refl

-- A time to live of 0 deletes the key of a first usage.
pub consumed-gone :
    (r : Redis) (s : r.State) (key : Bytes) (amount ttl : ℕ)
    → Uses r s key 0
    → amount < int_bound
    → ttl ≡ 0
    → r.get (consumed r s key amount ttl) key ≡ none
unfolding consumed
consumed-gone r s key amount ttl unused fits zero_ttl =
    let first : (0 + amount == amount) ≡ true = ground arith in
    let dying : (ttl == 0) ≡ true = ground (arith, zero_ttl) in
    rw
      (
        consumed,
        r.incr_by-value s key amount 0 unused (omega (arith, fits)),
        first,
        r.get-expire (r.incr_by s key amount).0 key key ttl,
        bytes_eq_refl key,
        dying,
      )
      refl
