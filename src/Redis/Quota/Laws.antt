-- ===== src/Redis/Quota/Laws.antt =====
-- What is consumed of a quota in Redis.
use tenantkit.Prelude.{
  ℕ, ◌+◌, ◌≡◌, refl, inl, inr, none, ltb, Bool-cases, ok, ◌<◌, ◌≤◌, ◌⊎◌, err, arith,
}
use tenantkit.Redis.{Redis, difference, lua_sum-exact, lua_difference-exact, exact_bound}
use tenantkit.Redis.Quota.{consume_current, run_consume, exceeded}
use tenantkit.Redis.Counter.{Uses, consumed}
use tenantkit.Text.{Bytes}

module _ (r : Redis) where
  -- A call that is let through raises the usage and keeps it within the limit; one that is refused
  -- leaves all as it is.
  pub run_consume-Uses :
      (s : r.State) (key : Bytes) (limit amount ttl c : ℕ)
      → Uses r s key c
      → c ≤ limit
      → limit + amount ≤ exact_bound
      → ((c + amount ≤ limit)
          × (run_consume r none s key limit amount ttl
              ≡ (consumed r s key amount ttl, ok (difference limit (c + amount)))))
        ⊎ ((limit < c + amount)
            × (run_consume r none s key limit amount ttl
                ≡ (s, err (exceeded (difference limit c)))))
  unfolding run_consume consume_current consumed
  run_consume-Uses s key limit amount ttl c uses below fits =
      let exact_limit = r.double-exact limit (omega (arith, fits)) in
      let exact_amount = r.double-exact amount (omega (arith, fits)) in
      let exact_sum = lua_sum-exact r c amount (omega (arith, fits, below)) in
      elim (Bool-cases (ltb limit (c + amount))) [
        | inl over ↦ inr (
          ground arith,
          rw
              (
                uses,
                exact_limit,
                exact_sum,
                over,
                lua_difference-exact r limit c (omega (arith, fits)) (omega (arith, fits, below)),
              )
              refl,
        )
        | inr within ↦
            let usage = r.double-exact (c + amount) (omega (arith, fits, below)) in
            let counted = r.incr_by-value s key amount c uses (omega (arith, fits, below)) in
            let left =
              lua_difference-exact r limit (c + amount) (omega (arith, fits))
                (omega (arith, fits, below)) in
            inl (
              ground arith,
              rw (uses, exact_amount, exact_limit, exact_sum, within, counted, usage, left)
                  (rw (exact_amount, consumed, counted) refl),
            )
      ]
