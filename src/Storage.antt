-- ===== src/Storage.antt =====
-- The storage of adapters/sql: its configuration, the storage itself and its transactions. This file
-- has what their operations share. A call of database/sql is its outcome, an argument, and what it is
-- given; the context that it is given is cancelled when the function that derived it returns.
pub mod Settings
pub mod Transaction
pub mod Handle
use tenantkit.Prelude.{
  ℕ, zero, suc, ◌+◌, ◌-◌, ◌*◌, ◌/◌, ◌%◌, ◌^◌, ◌≤◌, ◌<◌, min, ◌≡◌, refl, sym, ap, ◌∙◌, subst, ◌≢◌,
  ◌↔◌, ◌⊎◌, inl, inr, Bool, true, false, not, ◌&&◌, ◌||◌, Option, none, some, List, [], ◌∷◌, ◌++◌,
  map, foldr, reverse, append-nil, append_assoc, arith, ltb, leb, ◌==◌, if◌then◌else◌, Bool-cases,
  Option-cases, length, get_elem?, take, drop, replicate, any, All, length-append, take-append-drop,
  length-take, length-drop, length-replicate, take-append_left, drop-append_left,
  get_elem?-append_at, All-append, length-map, Result, ok, err, panic, ◌>>=◌, ok-injective,
  >>=-eq-ok, ℤ, pos, negsuc, is_negative, is_at_most_zero, magnitude, exceeds,
}
use tenantkit.Storage.Settings.{Config}
use tenantkit.Enforcer.{Enforcer, EnforceError, enforce_query}
use tenantkit.Inject.{Value, Statement}
use tenantkit.Domain.{GoContext}
use tenantkit.Text.{Bytes, codes}

-- A context: its values, whether it has a deadline, whether it is cancelled.
pub record CallContext : Type 0 where
  pub values : GoContext
  pub deadline : Bool
  pub cancelled : Bool

-- An error of the driver is a number.
pub data StorageError : Type 0 where
  enforcement_failed : EnforceError → StorageError
  execution_failed begin_failed health_failed driver_failed : ℕ → StorageError
  not_available nested_transaction cannot_close already_closed : StorageError
  tx_done context_cancelled : StorageError

-- The rows or the result of a statement, and the context that they depend on.
pub record Rows : Type 0 where
  pub statement : Statement
  pub context : CallContext

-- The derived context, and whether its cancel function is deferred.
unfoldable pub with_query_timeout : Config → CallContext → CallContext × Bool
with_query_timeout config ctx =
    if not ctx.deadline && exceeds config.query_timeout (pos 0)
    then (record ctx { deadline = true }, true)
    else (ctx, false)

unfoldable pub on_return : CallContext × Bool → CallContext
on_return (ctx, deferred) = if deferred then record ctx { cancelled = true } else ctx

-- What the driver does with a statement: the error, if any.
abbrev pub Driver : Type 0
Driver = CallContext → Statement → Option ℕ

unfoldable pub statement_of :
    Result EnforceError (Bytes × List Value) → Result StorageError Statement
statement_of (ok s) = ok (record { query = s.0; args = s.1 })
statement_of (err error) = err (enforcement_failed error)
statement_of panic = panic

unfoldable pub enforced :
    Enforcer → CallContext → Bytes → List Value → Result StorageError Statement
unfolding statement_of
enforced e ctx query args = statement_of (enforce_query e (some ctx.values) query args)

-- The call of QueryContext or ExecContext that follows the enforcement.
unfoldable pub execute :
    Driver → CallContext × Bool → Result StorageError Statement → Result StorageError Rows
unfolding on_return
execute driver call (err e) = err e
execute driver call panic = panic
execute driver call (ok s) = elim (driver call.0 s) [
  | none ↦ ok (record { statement = s; context = on_return call })
  | some e ↦ err (execution_failed e)
]

-- QueryRowContext reports its errors in Scan.
unfoldable pub row_with_error :
    CallContext × Bool → Result StorageError Statement → Result StorageError Rows
unfolding on_return
row_with_error call (err e) = err e
row_with_error call panic = panic
row_with_error call (ok s) = ok (record { statement = s; context = on_return call })

abbrev pub nothing_selected : Statement
nothing_selected = record { query = codes "SELECT NULL WHERE FALSE"; args = [] }

unfoldable pub row : CallContext × Bool → Result StorageError Statement → Result StorageError Rows
unfolding on_return
row call (err e) = ok (record { statement = nothing_selected; context = on_return call })
row call panic = panic
row call (ok s) = ok (record { statement = s; context = on_return call })
