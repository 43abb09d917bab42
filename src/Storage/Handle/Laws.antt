-- ===== src/Storage/Handle/Laws.antt =====
-- What the storage sends, and the context that it leaves behind.
use tenantkit.Prelude.{
  ℕ, ◌≡◌, refl, sym, ap, inl, inr, Bool, true, false, Option, none, some, List, Option-cases,
  Result, ok, err, panic, ok-injective, pos, exceeds, if◌then◌else◌,
}
use tenantkit.Storage.{
  CallContext, StorageError, Rows, Driver, with_query_timeout, on_return, enforced, execute,
  context_cancelled, tx_done,
}
use tenantkit.Storage.Handle.{Storage, query, begin}
use tenantkit.Storage.Transaction.{
  Transaction, TxState, rolled_back, commit, sql_commit, finish, new_transaction,
}
use tenantkit.Enforcer.{Enforcer}
use tenantkit.Inject.{Value, Statement}
use tenantkit.Text.{Bytes}

execute-ok :
    (driver : Driver) (call : CallContext × Bool) (r : Result StorageError Statement) (rows : Rows)
    → execute driver call r ≡ ok rows
    → (r ≡ ok rows.statement) × (rows.context ≡ on_return call)
unfolding execute
execute-ok driver call (err e) rows h = absurd (cc)
execute-ok driver call panic rows h = absurd (cc)
execute-ok driver call (ok s) rows h = elim (Option-cases (driver call.0 s)) [
  | inl fine ↦
      let same = ok-injective _ rows (rw (fine, execute) at h) in
      (ap ok (ap (λ (r : Rows). r.statement) same), sym (ap (λ (r : Rows). r.context) same))
  | inr (e, failed) ↦ absurd (let h' = rw (failed, execute) at h in cc)
]

-- A context with no deadline, and a query timeout.
abbrev pub IsWithoutDeadline : Storage → CallContext → Type 0
IsWithoutDeadline s ctx = (ctx.deadline ≡ false) × (exceeds s.config.query_timeout (pos 0) ≡ true)

timed-cancelled :
    (s : Storage) (ctx : CallContext)
    → IsWithoutDeadline s ctx
    → (on_return (with_query_timeout s.config ctx)).cancelled ≡ true
unfolding on_return with_query_timeout
timed-cancelled s ctx (fresh, limited) = rw (fresh, limited) refl

-- Rows that Query returns for a context with no deadline depend on a context that is cancelled.
pub query-cancelled :
    (driver : Driver) (s : Storage) (ctx : CallContext) (sql : Bytes) (args : List Value)
    (rows : Rows)
    → IsWithoutDeadline s ctx
    → query driver s ctx sql args ≡ ok rows
    → rows.context.cancelled ≡ true
unfolding query
query-cancelled driver s ctx sql args rows timed h =
    let call = with_query_timeout s.config ctx in
    let (_, same) = execute-ok driver call (enforced s.enforcer call.0 sql args) rows h in
    rw same (timed-cancelled s ctx timed)

abbrev pub sql_state : Transaction → Option TxState
sql_state t = elim t.tx [ none ↦ none | some tx ↦ some tx.state ]

-- A transaction that Begin of the SQL storage returns for a context with no deadline, where there
-- is a query timeout, cannot be committed: Commit returns ErrTxDone or the error of the cancelled
-- context, as database/sql has rolled back before or does so then, and the *sql.Tx is rolled back.
pub begin-commit :
    (s : Storage) (ctx : CallContext) (t : Transaction) (ended : Bool) (failed : Option ℕ)
    → IsWithoutDeadline s ctx
    → begin none s ctx ≡ ok t
    → ((commit ended failed t).1 ≡ err (if ended then tx_done else context_cancelled))
      × (sql_state (commit ended failed t).0 ≡ some rolled_back)
unfolding begin commit finish sql_commit new_transaction
begin-commit s ctx t ended failed timed h =
    let same = ok-injective _ t h in rw (← same, timed-cancelled s ctx timed) (refl, refl)
