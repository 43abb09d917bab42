-- ===== src/Tests/Sql.antt =====
-- Runs of the storage, its transactions and its configuration, and of the adapter of sqlx.
use tenantkit.Prelude.{◌≡◌, refl, true, false, none, some, [], ◌∷◌, ok, err, panic, pos, exceeds}
use tenantkit.Inject.{other, text, Statement}
use tenantkit.Inject.Args.{IsBound}
use tenantkit.Sqlx.{
  Scope, condition_of, is_set, should_skip, inject_tenant_condition, insert_arg_at_position,
  get_tenant_id, insert_place, where_word,
}
use tenantkit.Sqlx.Handle.{query_context, scoped, with_condition}
use tenantkit.Sqlx.Laws.{query_context-IsBound, IsPlacedLast}
use tenantkit.Storage.Settings as Settings
use tenantkit.Storage.Settings.{
  new_storage_config_builder, build_with_validation, with_max_open_connections, cap_idle,
  default_health_check_config,
}
use tenantkit.Storage.Settings.Laws.{max_open, set_all, IsInRange, build_with_validation-IsInRange}
use tenantkit.Storage.{
  CallContext, Driver, Rows, enforced, execute, statement_of, with_query_timeout, on_return,
  tx_done,
}
use tenantkit.Storage.Handle.{Storage, query, begin}
use tenantkit.Storage.Handle.Laws.{begin-commit, sql_state}
use tenantkit.Storage.Transaction.{Transaction, SqlTx, active, rolled_back, new_transaction, commit}
use tenantkit.Storage.Transaction.Laws.{
  commits, rolls_back, finish_all, transaction, finish_all-once, sql_finish,
}
use tenantkit.Tests.Quotas as Quotas
use tenantkit.Tests.Quotas.{acme, acme_context, acme-found, counting}
use tenantkit.Text.{Bytes, codes, to_lower, index, count}

opening : Unit {0}
unfolding counting new_storage_config_builder build_with_validation with_max_open_connections
    cap_idle default_health_check_config query enforced execute statement_of with_query_timeout
    on_return begin new_transaction query_context scoped with_condition should_skip is_set
    inject_tenant_condition insert_arg_at_position get_tenant_id insert_place count
opening = tt

-- A configuration with 4 connections, of which 2 may be idle.
abbrev four_config : Settings.Config
four_config = record {
  max_open_connections = pos 4;
  max_idle_connections = pos 2;
  conn_max_lifetime = pos 3_600_000_000_000;
  conn_max_idle_time = pos 600_000_000_000;
  query_timeout = pos 30_000_000_000;
  health_check_config = record { timeout = pos 5_000_000_000; interval = pos 30_000_000_000 };
}

four-built :
    (build_with_validation (set_all new_storage_config_builder (max_open (pos 4) ∷ []))).1
    ≡ ok four_config
unfolding opening
four-built = refl

build_with_validation-IsInRange_example :
    IsInRange four_config
    × (exceeds four_config.max_idle_connections four_config.max_open_connections ≡ false)
build_with_validation-IsInRange_example =
    build_with_validation-IsInRange (max_open (pos 4) ∷ []) four_config four-built

abbrev store : Storage
store = record {
  db = none;
  enforcer = record { tenant_column = codes "tenant_id" };
  config = four_config;
}

abbrev call : CallContext
call = record { values = acme; deadline = false; cancelled = false }

abbrev accepting : Driver
accepting ctx s = none

abbrev rows : Rows
rows = record {
  statement = record { query = Quotas.enforced; args = other 7 ∷ [] };
  context = record { values = acme; deadline = true; cancelled = true };
}

abbrev begun : Transaction
begun = record {
  tx = some (record { context = rows.context; state = active });
  enforcer = store.enforcer;
  config = four_config;
  done = false;
}

begun-returned : begin none store call ≡ ok begun
unfolding opening
begun-returned = refl

begin-commit_example :
    ((commit true none begun).1 ≡ err tx_done)
    × (sql_state (commit true none begun).0 ≡ some rolled_back)
begin-commit_example = begin-commit store call begun true none (refl, refl) begun-returned

abbrev open_tx : SqlTx
open_tx = record { context = call; state = active }

-- A Commit and the deferred Rollback.
finish_all-once_example :
    finish_all
      (transaction store.enforcer four_config open_tx false)
      (commits false none ∷ rolls_back false none ∷ [])
    ≡ (
      transaction store.enforcer four_config (sql_finish (commits false none) open_tx).0 true,
      (sql_finish (commits false none) open_tx).1 ∷ panic ∷ [],
    )
finish_all-once_example =
    finish_all-once store.enforcer four_config (commits false none) (rolls_back false none ∷ [])
      open_tx

abbrev scope : Scope
scope = record { tenant_column = codes "tenant_id"; skip_tables = codes "plans" ∷ [] }

abbrev update : Bytes
update = codes "UPDATE users SET name = ? WHERE id = ?"

abbrev scoped_update : Statement
scoped_update = record {
  query = codes "UPDATE users SET name = ? WHERE tenant_id = ? AND id = ?";
  args = other 1 ∷ text (codes "acme") ∷ other 2 ∷ [];
}

update-kept : should_skip scope acme update ≡ false
unfolding opening
update-kept = refl

update-found : index (to_lower update) where_word ≡ some 26
unfolding opening
update-found = refl

update-IsPlacedLast : IsPlacedLast update
update-IsPlacedLast place e p = absurd (let h = update-found in cc)

update-sent : query_context scope (some acme) update (other 1 ∷ other 2 ∷ []) ≡ ok scoped_update
unfolding opening
update-sent = refl

query_context-IsBound_example :
    IsBound
      (condition_of scope)
      update
      (text (codes "acme") ∷ [])
      (other 1 ∷ other 2 ∷ [])
      scoped_update
query_context-IsBound_example =
    query_context-IsBound scope acme acme_context update (other 1 ∷ other 2 ∷ []) scoped_update
      update-kept acme-found update-IsPlacedLast update-sent
