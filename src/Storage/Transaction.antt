-- ===== src/Storage/Transaction.antt =====
-- adapters/sql/transaction.go: the transaction of a storage. The *sql.Tx is what database/sql
-- documents: it is decided once, and rolled back when the context of BeginTx is cancelled.
pub mod Laws
use tenantkit.Prelude.{
  ℕ, zero, suc, ◌+◌, ◌-◌, ◌*◌, ◌/◌, ◌%◌, ◌^◌, ◌≤◌, ◌<◌, min, ◌≡◌, refl, sym, ap, ◌∙◌, subst, ◌≢◌,
  ◌↔◌, ◌⊎◌, inl, inr, Bool, true, false, not, ◌&&◌, ◌||◌, Option, none, some, List, [], ◌∷◌, ◌++◌,
  map, foldr, reverse, append-nil, append_assoc, arith, ltb, leb, ◌==◌, if◌then◌else◌, Bool-cases,
  Option-cases, length, get_elem?, take, drop, replicate, any, All, length-append, take-append-drop,
  length-take, length-drop, length-replicate, take-append_left, drop-append_left,
  get_elem?-append_at, All-append, length-map, Result, ok, err, panic, ◌>>=◌, ok-injective,
  >>=-eq-ok, ℤ, pos, negsuc, is_negative, is_at_most_zero, magnitude,
}
use tenantkit.Storage.Settings.{Config, default_config}
use tenantkit.Storage.{
  CallContext, StorageError, Rows, Driver, with_query_timeout, enforced, execute, row_with_error,
  row, already_closed, context_cancelled, driver_failed, nested_transaction, cannot_close, tx_done,
}
use tenantkit.Enforcer.{Enforcer}
use tenantkit.Inject.{Value}
use tenantkit.Text.{Bytes}

pub data TxState : Type 0 where
  active committed rolled_back : TxState

pub record SqlTx : Type 0 where
  pub context : CallContext
  pub state : TxState

-- `done` is whether the channel is closed. The field tx may be nil.
pub record Transaction : Type 0 where
  pub tx : Option SqlTx
  pub enforcer : Enforcer
  pub config : Config
  pub done : Bool

unfoldable pub new_transaction : Option SqlTx → Enforcer → Option Config → Transaction
unfolding default_config
new_transaction tx enforcer none = record {
  tx = tx;
  enforcer = enforcer;
  config = default_config;
  done = false;
}
new_transaction tx enforcer (some config) = record {
  tx = tx;
  enforcer = enforcer;
  config = config;
  done = false;
}

-- The statements are sent within the transaction, where it is not nil.
unfoldable pub query :
    Driver → Transaction → CallContext → Bytes → List Value → Result StorageError Rows
unfolding with_query_timeout
query driver t ctx sql args =
    let call = with_query_timeout t.config ctx in
    execute driver call (enforced t.enforcer call.0 sql args)

unfoldable pub query_row_with_error :
    Transaction → CallContext → Bytes → List Value → Result StorageError Rows
unfolding with_query_timeout
query_row_with_error t ctx sql args =
    let call = with_query_timeout t.config ctx in
    row_with_error call (enforced t.enforcer call.0 sql args)

unfoldable pub query_row : Transaction → CallContext → Bytes → List Value → Result StorageError Rows
unfolding with_query_timeout
query_row t ctx sql args =
    let call = with_query_timeout t.config ctx in row call (enforced t.enforcer call.0 sql args)

unfoldable pub exec :
    Driver → Transaction → CallContext → Bytes → List Value → Result StorageError Rows
unfolding with_query_timeout
exec driver t ctx sql args =
    let call = with_query_timeout t.config ctx in
    execute driver call (enforced t.enforcer call.0 sql args)

unfoldable pub begin : Transaction → CallContext → Result StorageError Transaction
begin t ctx = err nested_transaction

unfoldable pub close : Transaction → Result StorageError (Unit {0})
close t = err cannot_close

unfoldable pub health : Transaction → Result StorageError (Unit {0})
health t = elim t.tx [ none ↦ err already_closed | some tx ↦ ok tt ]

-- The *sql.Tx of database/sql. Once the context is cancelled a goroutine rolls it back; Commit
-- and Rollback return ErrTxDone if that has happened, which `ended` says; before, Commit returns the
-- error of the context. `failed` is
-- the error of the driver, if any.
unfoldable pub sql_commit : Bool → Option ℕ → SqlTx → SqlTx × Result StorageError (Unit {0})
sql_commit ended failed tx = elim tx.state [
  | active ↦
      if tx.context.cancelled
      then (record tx { state = rolled_back }, err (if ended then tx_done else context_cancelled))
      else elim failed [
        | none ↦ (record tx { state = committed }, ok tt)
        | some e ↦ (record tx { state = rolled_back }, err (driver_failed e))
      ]
  | committed ↦ (tx, err tx_done)
  | rolled_back ↦ (tx, err tx_done)
]

unfoldable pub sql_rollback : Bool → Option ℕ → SqlTx → SqlTx × Result StorageError (Unit {0})
sql_rollback ended failed tx = elim tx.state [
  | active ↦ (
    record tx { state = rolled_back },
    if tx.context.cancelled && ended
        then err tx_done
        else elim failed [ none ↦ ok tt | some e ↦ err (driver_failed e) ],
  )
  | committed ↦ (tx, err tx_done)
  | rolled_back ↦ (tx, err tx_done)
]

-- `close(t.done)`, which panics on a closed channel, and the return of the error.
unfoldable pub finish :
    Transaction
    → SqlTx × Result StorageError (Unit {0})
    → Transaction × Result StorageError (Unit {0})
finish t (tx, result) =
    if t.done
    then (record t { tx = some tx }, panic)
    else (record t { tx = some tx; done = true }, result)

unfoldable pub commit : Bool → Option ℕ → Transaction → Transaction × Result StorageError (Unit {0})
unfolding sql_commit finish
commit ended failed t = elim t.tx [
  | none ↦ (t, err already_closed)
  | some tx ↦ finish t (sql_commit ended failed tx)
]

unfoldable pub rollback :
    Bool → Option ℕ → Transaction → Transaction × Result StorageError (Unit {0})
unfolding sql_rollback finish
rollback ended failed t = elim t.tx [
  | none ↦ (t, err already_closed)
  | some tx ↦ finish t (sql_rollback ended failed tx)
]
