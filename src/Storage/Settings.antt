-- ===== src/Storage/Settings.antt =====
-- adapters/sql/storage.go and health_config.go: the configuration and its builder. A duration is its
-- nanoseconds; the builder's methods return the builder that they have changed.
pub mod Laws
use tenantkit.Prelude.{
  ℕ, zero, suc, ◌+◌, ◌-◌, ◌*◌, ◌/◌, ◌%◌, ◌^◌, ◌≤◌, ◌<◌, min, ◌≡◌, refl, sym, ap, ◌∙◌, subst, ◌≢◌,
  ◌↔◌, ◌⊎◌, inl, inr, Bool, true, false, not, ◌&&◌, ◌||◌, Option, none, some, List, [], ◌∷◌, ◌++◌,
  map, foldr, reverse, append-nil, append_assoc, arith, ltb, leb, ◌==◌, if◌then◌else◌, Bool-cases,
  Option-cases, length, get_elem?, take, drop, replicate, any, All, length-append, take-append-drop,
  length-take, length-drop, length-replicate, take-append_left, drop-append_left,
  get_elem?-append_at, All-append, length-map, Result, ok, err, panic, ◌>>=◌, ok-injective,
  >>=-eq-ok, ℤ, pos, negsuc, is_negative, is_at_most_zero, magnitude, exceeds, half,
}

pub record HealthCheckConfig : Type 0 where
  pub timeout : ℤ
  pub interval : ℤ

pub record Config : Type 0 where
  pub max_open_connections : ℤ
  pub max_idle_connections : ℤ
  pub conn_max_lifetime : ℤ
  pub conn_max_idle_time : ℤ
  pub query_timeout : ℤ
  pub health_check_config : HealthCheckConfig

-- The errors that the methods collect, with the value that they refuse.
pub data ConfigError : Type 0 where
  bad_max_open bad_max_idle bad_lifetime bad_idle_time bad_query_timeout : ℤ → ConfigError

pub record Builder : Type 0 where
  pub config : Config
  pub errors : List ConfigError

abbrev pub seconds : ℕ → ℤ
seconds n = pos (n * 1_000_000_000)

unfoldable pub default_health_check_config : HealthCheckConfig
default_health_check_config = record { timeout = seconds 5; interval = seconds 30 }

unfoldable pub fast_health_check_config : HealthCheckConfig
fast_health_check_config = record { timeout = seconds 1; interval = seconds 5 }

unfoldable pub relaxed_health_check_config : HealthCheckConfig
relaxed_health_check_config = record { timeout = seconds 10; interval = seconds 60 }

unfoldable pub custom_health_check_config : ℤ → ℤ → HealthCheckConfig
custom_health_check_config timeout interval = record {
  timeout = if is_at_most_zero timeout then seconds 5 else timeout;
  interval = if is_at_most_zero interval then seconds 30 else interval;
}

unfoldable pub new_storage_config_builder : Builder
unfolding default_health_check_config
new_storage_config_builder = record {
  config = record {
    max_open_connections = pos 25;
    max_idle_connections = pos 5;
    conn_max_lifetime = seconds 3600;
    conn_max_idle_time = seconds 600;
    query_timeout = seconds 30;
    health_check_config = default_health_check_config;
  };
  errors = [];
}

-- What `append` does when a method refuses its value.
abbrev pub refuse : Bool → ConfigError → List ConfigError → List ConfigError
refuse bad e errors = if bad then errors ++ (e ∷ []) else errors

unfoldable pub with_max_open_connections : Builder → ℤ → Builder
with_max_open_connections scb n = record {
  config = record scb.config { max_open_connections = n };
  errors = refuse (is_at_most_zero n) (bad_max_open n) scb.errors;
}

unfoldable pub with_max_idle_connections : Builder → ℤ → Builder
with_max_idle_connections scb n = record {
  config = record scb.config { max_idle_connections = n };
  errors = refuse (is_negative n) (bad_max_idle n) scb.errors;
}

unfoldable pub with_conn_max_lifetime : Builder → ℤ → Builder
with_conn_max_lifetime scb d = record {
  config = record scb.config { conn_max_lifetime = d };
  errors = refuse (is_at_most_zero d) (bad_lifetime d) scb.errors;
}

unfoldable pub with_conn_max_idle_time : Builder → ℤ → Builder
with_conn_max_idle_time scb d = record {
  config = record scb.config { conn_max_idle_time = d };
  errors = refuse (is_negative d) (bad_idle_time d) scb.errors;
}

unfoldable pub with_query_timeout : Builder → ℤ → Builder
with_query_timeout scb d = record {
  config = record scb.config { query_timeout = d };
  errors = refuse (is_at_most_zero d) (bad_query_timeout d) scb.errors;
}

-- A nil configuration is `none`.
unfoldable pub with_health_check_config : Builder → Option HealthCheckConfig → Builder
with_health_check_config scb none = scb
with_health_check_config scb (some hc) = record scb {
  config = record scb.config { health_check_config = hc };
}

unfoldable pub cap_idle : Config → Config
cap_idle config =
    if exceeds config.max_idle_connections config.max_open_connections
    then record config { max_idle_connections = half config.max_open_connections }
    else config

-- The builder, whose configuration is changed in place, and what is returned.
unfoldable pub build_with_validation : Builder → Builder × Result (List ConfigError) Config
unfolding cap_idle
build_with_validation scb = elim scb.errors [
  | [] ↦ (record scb { config = cap_idle scb.config }, ok (cap_idle scb.config))
  | e ∷ es ↦ (scb, err (e ∷ es))
]

unfoldable pub build : Builder → Config
unfolding cap_idle
build scb = cap_idle scb.config

unfoldable pub default_config : Config
unfolding build new_storage_config_builder
default_config = build new_storage_config_builder
