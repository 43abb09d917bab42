-- ===== src/Storage/Settings/Laws.antt =====
-- What the builder of the storage's configuration accepts.
use tenantkit.Prelude.{
  ◌≡◌, refl, ◌≢◌, ◌⊎◌, inl, inr, Bool, true, false, Option, none, some, List, [], ◌∷◌, ◌++◌, arith,
  Bool-cases, ok, ok-injective, ℤ, pos, negsuc, is_negative, is_at_most_zero, exceeds, half,
}
use tenantkit.Storage.Settings.{
  HealthCheckConfig, Config, ConfigError, Builder, new_storage_config_builder,
  with_max_open_connections, with_max_idle_connections, with_conn_max_lifetime,
  with_conn_max_idle_time, with_query_timeout, with_health_check_config, cap_idle,
  build_with_validation, refuse,
}

-- A call of one of the builder's methods.
pub data Setting : Type 0 where
  max_open max_idle lifetime idle_time query_limit : ℤ → Setting
  health : Option HealthCheckConfig → Setting

abbrev pub set : Builder → Setting → Builder
set scb (max_open n) = with_max_open_connections scb n
set scb (max_idle n) = with_max_idle_connections scb n
set scb (lifetime d) = with_conn_max_lifetime scb d
set scb (idle_time d) = with_conn_max_idle_time scb d
set scb (query_limit d) = with_query_timeout scb d
set scb (health hc) = with_health_check_config scb hc

abbrev pub set_all : Builder → List Setting → Builder
set_all scb [] = scb
set_all scb (s ∷ settings) = set_all (set scb s) settings

-- Every number of a configuration is in its range.
abbrev pub IsInRange : Config → Type 0
IsInRange c =
    (is_at_most_zero c.max_open_connections ≡ false)
    × (is_negative c.max_idle_connections ≡ false)
    × (is_at_most_zero c.conn_max_lifetime ≡ false)
    × (is_negative c.conn_max_idle_time ≡ false)
    × (is_at_most_zero c.query_timeout ≡ false)

-- A builder that has collected no error holds values in range.
abbrev IsSound : Builder → Type 0
IsSound scb = scb.errors ≡ [] → IsInRange scb.config

nil-cases :
    (errors : List ConfigError)
    → (errors ≡ []) ⊎ ((e : ConfigError) × (es : List ConfigError) × (errors ≡ e ∷ es))
nil-cases [] = inl refl
nil-cases (e ∷ es) = inr (e, es, refl)

not-append-nil : (errors : List ConfigError) (e : ConfigError) → errors ++ (e ∷ []) ≢ []
not-append-nil [] e h = absurd (cc)
not-append-nil (x ∷ errors) e h = absurd (cc)

-- A method that has refused nothing has accepted its value, and no method before it has refused.
refuse-nil :
    (bad : Bool) (e : ConfigError) (errors : List ConfigError)
    → refuse bad e errors ≡ []
    → (bad ≡ false) × (errors ≡ [])
refuse-nil true e errors h = absurd (not-append-nil errors e h)
refuse-nil false e errors h = (refl, h)

set-IsSound : (scb : Builder) (s : Setting) → IsSound scb → IsSound (set scb s)
unfolding with_max_open_connections with_max_idle_connections with_conn_max_lifetime
    with_conn_max_idle_time with_query_timeout with_health_check_config
set-IsSound scb (max_open n) sound h =
    let (fine, before) = refuse-nil _ _ scb.errors h in
    let (_, idle, life, idle_for, query) = sound before in (fine, idle, life, idle_for, query)
set-IsSound scb (max_idle n) sound h =
    let (fine, before) = refuse-nil _ _ scb.errors h in
    let (opened, _, life, idle_for, query) = sound before in (opened, fine, life, idle_for, query)
set-IsSound scb (lifetime n) sound h =
    let (fine, before) = refuse-nil _ _ scb.errors h in
    let (opened, idle, _, idle_for, query) = sound before in (opened, idle, fine, idle_for, query)
set-IsSound scb (idle_time n) sound h =
    let (fine, before) = refuse-nil _ _ scb.errors h in
    let (opened, idle, life, _, query) = sound before in (opened, idle, life, fine, query)
set-IsSound scb (query_limit n) sound h =
    let (fine, before) = refuse-nil _ _ scb.errors h in
    let (opened, idle, life, idle_for, _) = sound before in (opened, idle, life, idle_for, fine)
set-IsSound scb (health none) sound h = sound h
set-IsSound scb (health (some hc)) sound h = sound h

set_all-IsSound :
    (scb : Builder) (settings : List Setting) → IsSound scb → IsSound (set_all scb settings)
set_all-IsSound scb [] sound = sound
set_all-IsSound scb (s ∷ settings) sound =
    set_all-IsSound (set scb s) settings (set-IsSound scb s sound)

-- Half of a positive number.
half-Range :
    (z : ℤ)
    → is_at_most_zero z ≡ false
    → (is_negative (half z) ≡ false) × (exceeds (half z) z ≡ false)
half-Range (pos n) h = (refl, ground arith)
half-Range (negsuc n) h = absurd (cc)

cap_idle-IsInRange :
    (c : Config)
    → IsInRange c
    → IsInRange (cap_idle c)
      × (exceeds (cap_idle c).max_idle_connections (cap_idle c).max_open_connections ≡ false)
unfolding cap_idle
cap_idle-IsInRange c (opened, idle, life, idle_for, query) =
    elim (Bool-cases (exceeds c.max_idle_connections c.max_open_connections)) [
      | inl over ↦
          let (h, k) = half-Range c.max_open_connections opened in
          rw over ((opened, h, life, idle_for, query), k)
      | inr fits ↦ rw fits ((opened, idle, life, idle_for, query), fits)
    ]

build_with_validation-ok :
    (scb : Builder) (config : Config)
    → (build_with_validation scb).1 ≡ ok config
    → (scb.errors ≡ []) × (cap_idle scb.config ≡ config)
unfolding build_with_validation
build_with_validation-ok scb config h = elim (nil-cases scb.errors) [
  | inl none_refused ↦
      (none_refused, ok-injective _ config (rw (none_refused, build_with_validation) at h))
  | inr (e, es, refused) ↦ absurd (let h' = rw (refused, build_with_validation) at h in cc)
]

-- Whatever methods of a new builder were called in whatever order, a configuration that
-- BuildWithValidation accepts has a positive number of open connections, lifetime and query
-- timeout, a number of idle connections and an idle time that are not negative, and no more idle
-- connections than open ones.
pub build_with_validation-IsInRange :
    (settings : List Setting) (config : Config)
    → (build_with_validation (set_all new_storage_config_builder settings)).1 ≡ ok config
    → IsInRange config × (exceeds config.max_idle_connections config.max_open_connections ≡ false)
unfolding new_storage_config_builder
build_with_validation-IsInRange settings config h =
    let scb = set_all new_storage_config_builder settings in
    let (none_refused, same) = build_with_validation-ok scb config h in
    rw (← same) (
      cap_idle-IsInRange scb.config (
        set_all-IsSound new_storage_config_builder settings (λ _. (refl, refl, refl, refl, refl))
          none_refused))
