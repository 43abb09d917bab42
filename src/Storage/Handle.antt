-- ===== src/Storage/Handle.antt =====
-- adapters/sql/storage.go: the Storage, which sends what the enforcer returns.
pub mod Laws
use tenantkit.Prelude.{
  ℕ, zero, suc, ◌+◌, ◌-◌, ◌*◌, ◌/◌, ◌%◌, ◌^◌, ◌≤◌, ◌<◌, min, ◌≡◌, refl, sym, ap, ◌∙◌, subst, ◌≢◌,
  ◌↔◌, ◌⊎◌, inl, inr, Bool, true, false, not, ◌&&◌, ◌||◌, Option, none, some, List, [], ◌∷◌, ◌++◌,
  map, foldr, reverse, append-nil, append_assoc, arith, ltb, leb, ◌==◌, if◌then◌else◌, Bool-cases,
  Option-cases, length, get_elem?, take, drop, replicate, any, All, length-append, take-append-drop,
  length-take, length-drop, length-replicate, take-append_left, drop-append_left,
  get_elem?-append_at, All-append, length-map, Result, ok, err, panic, ◌>>=◌, ok-injective,
  >>=-eq-ok, ℤ, pos, negsuc, is_negative, is_at_most_zero, magnitude,
}
use tenantkit.Storage.Settings.{Config, default_config}
use tenantkit.Storage.{
  CallContext, StorageError, Rows, Driver, with_query_timeout, on_return, enforced, execute,
  row_with_error, row, driver_failed, not_available, begin_failed, health_failed,
}
use tenantkit.Storage.Transaction.{Transaction, SqlTx, active, new_transaction}
use tenantkit.Enforcer.{Enforcer, new_enforcer}
use tenantkit.Inject.{Value}
use tenantkit.Text.{Bytes}

-- The pool of connections: what has been set on it.
pub record Pool : Type 0 where
  pub max_open_conns : ℤ
  pub max_idle_conns : ℤ
  pub conn_max_lifetime : ℤ
  pub conn_max_idle_time : ℤ

pub record Storage : Type 0 where
  pub db : Option Pool
  pub enforcer : Enforcer
  pub config : Config

unfoldable pub given_config : Option Config → Config
unfolding default_config
given_config none = default_config
given_config (some config) = config

-- Over an open *sql.DB.
unfoldable pub new_with_config : Option Config → Storage
unfolding new_enforcer given_config
new_with_config given =
    let config = given_config given in
    record {
      db = some (record {
        max_open_conns = config.max_open_connections;
        max_idle_conns = config.max_idle_connections;
        conn_max_lifetime = config.conn_max_lifetime;
        conn_max_idle_time = config.conn_max_idle_time;
      });
      enforcer = new_enforcer;
      config = config;
    }

unfoldable pub new : Storage
unfolding new_with_config
new = new_with_config (some default_config)

unfoldable pub query :
    Driver → Storage → CallContext → Bytes → List Value → Result StorageError Rows
unfolding with_query_timeout
query driver s ctx sql args =
    let call = with_query_timeout s.config ctx in
    execute driver call (enforced s.enforcer call.0 sql args)

unfoldable pub query_row_with_error :
    Storage → CallContext → Bytes → List Value → Result StorageError Rows
unfolding with_query_timeout
query_row_with_error s ctx sql args =
    let call = with_query_timeout s.config ctx in
    row_with_error call (enforced s.enforcer call.0 sql args)

unfoldable pub query_row : Storage → CallContext → Bytes → List Value → Result StorageError Rows
unfolding with_query_timeout
query_row s ctx sql args =
    let call = with_query_timeout s.config ctx in row call (enforced s.enforcer call.0 sql args)

unfoldable pub exec : Driver → Storage → CallContext → Bytes → List Value → Result StorageError Rows
unfolding with_query_timeout
exec driver s ctx sql args =
    let call = with_query_timeout s.config ctx in
    execute driver call (enforced s.enforcer call.0 sql args)

-- `failed` is the error of BeginTx, if any. The *sql.Tx keeps the derived context.
unfoldable pub begin : Option ℕ → Storage → CallContext → Result StorageError Transaction
unfolding with_query_timeout on_return new_transaction
begin (some e) s ctx = err (begin_failed e)
begin none s ctx = ok (
    new_transaction
      (some (record { context = on_return (with_query_timeout s.config ctx); state = active }))
      s.enforcer (some s.config))

-- `failed` is the error of the pool's Close, if any.
unfoldable pub close : Option ℕ → Storage → Result StorageError (Unit {0})
close failed s = elim s.db [
  | none ↦ ok tt
  | some db ↦ elim failed [ none ↦ ok tt | some e ↦ err (driver_failed e) ]
]

-- `ping` is the error of a ping that is given so many nanoseconds.
unfoldable pub health : (ℤ → Option ℕ) → Storage → Result StorageError (Unit {0})
health ping s = elim s.db [
  | none ↦ err not_available
  | some db ↦ elim (ping s.config.health_check_config.timeout) [
    | none ↦ ok tt
    | some e ↦ err (health_failed e)
  ]
]
