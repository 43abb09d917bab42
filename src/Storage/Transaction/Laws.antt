-- ===== src/Storage/Transaction/Laws.antt =====
-- What becomes of a transaction that is finished, more than once too.
use tenantkit.Prelude.{
  ℕ, ◌≡◌, refl, ◌⊎◌, Bool, true, false, Option, none, some, List, [], ◌∷◌, arith, length, replicate,
  Result, err, panic,
}
use tenantkit.Storage.Settings.{Config}
use tenantkit.Storage.{StorageError, tx_done}
use tenantkit.Storage.Transaction.{
  Transaction, SqlTx, committed, rolled_back, sql_commit, sql_rollback, finish, commit, rollback,
}
use tenantkit.Enforcer.{Enforcer}

-- A call that finishes a transaction, with whether database/sql has rolled back before where the context
-- is cancelled, and the error of the driver.
pub data Finish : Type 0 where
  commits rolls_back : Bool → Option ℕ → Finish

abbrev pub Outcome : Type 0
Outcome = Result StorageError (Unit {0})

abbrev pub finish_by : Finish → Transaction → Transaction × Outcome
finish_by (commits ended failed) t = commit ended failed t
finish_by (rolls_back ended failed) t = rollback ended failed t

-- The calls in their order, with what each returns; a panic is recovered by the caller.
abbrev pub finish_all : Transaction → List Finish → Transaction × List Outcome
finish_all t [] = (t, [])
finish_all t (f ∷ fs) =
    let (t₁, outcome) = finish_by f t in
    let (t₂, outcomes) = finish_all t₁ fs in (t₂, outcome ∷ outcomes)

abbrev pub sql_finish : Finish → SqlTx → SqlTx × Outcome
sql_finish (commits ended failed) tx = sql_commit ended failed tx
sql_finish (rolls_back ended failed) tx = sql_rollback ended failed tx

-- The *sql.Tx is decided by the first call.
sql_finish-decided :
    (f : Finish) (tx : SqlTx)
    → ((sql_finish f tx).0.state ≡ committed) ⊎ ((sql_finish f tx).0.state ≡ rolled_back)
unfolding sql_commit sql_rollback
sql_finish-decided (commits ended none) tx = ground arith
sql_finish-decided (commits ended (some e)) tx = ground arith
sql_finish-decided (rolls_back ended failed) tx = ground arith

sql_finish-again :
    (f : Finish) (tx : SqlTx)
    → (tx.state ≡ committed) ⊎ (tx.state ≡ rolled_back)
    → sql_finish f tx ≡ (tx, err tx_done)
unfolding sql_commit sql_rollback
sql_finish-again (commits ended failed) tx h = ground arith
sql_finish-again (rolls_back ended failed) tx h = ground arith

module _ (enforcer : Enforcer) (config : Config) where
  abbrev pub transaction : SqlTx → Bool → Transaction
  transaction tx done = record { tx = some tx; enforcer = enforcer; config = config; done = done }

  finish_by-eq :
      (f : Finish) (tx : SqlTx) (done : Bool)
      → finish_by f (transaction tx done) ≡ finish (transaction tx done) (sql_finish f tx)
  unfolding commit rollback
  finish_by-eq (commits ended failed) tx done = refl
  finish_by-eq (rolls_back ended failed) tx done = refl

  finish_all-panic :
      (fs : List Finish) (tx : SqlTx)
      → (tx.state ≡ committed) ⊎ (tx.state ≡ rolled_back)
      → finish_all (transaction tx true) fs ≡ (transaction tx true, replicate (length fs) panic)
  unfolding finish
  finish_all-panic [] tx h = refl
  finish_all-panic (f ∷ fs) tx h =
      rw (finish_by-eq f tx true, sql_finish-again f tx h, finish_all-panic fs tx h) refl

-- The first Commit or Rollback of a transaction decides it and closes its channel; every later one
-- leaves it as it is and panics.
pub finish_all-once :
    (enforcer : Enforcer) (config : Config) (first : Finish) (later : List Finish) (tx : SqlTx)
    → finish_all (transaction enforcer config tx false) (first ∷ later) ≡ (
      transaction enforcer config (sql_finish first tx).0 true,
      (sql_finish first tx).1 ∷ replicate (length later) panic,
    )
unfolding finish
finish_all-once enforcer config first later tx =
    rw
      (
        finish_by-eq enforcer config first tx false,
        finish_all-panic enforcer config later (sql_finish first tx).0
            (sql_finish-decided first tx),
      )
      refl
