-- ===== src/Database.antt =====
-- The DB and the Tx of tenantkit/wrap.go. What a call of database/sql would receive stands for the
-- call: its rows and results, and the log, are left out.
pub mod Laws
use tenantkit.Prelude.{
  ℕ, Bool, Option, none, some, List, if◌then◌else◌, Result, ok, err, panic, ◌>>=◌, pos,
}
use tenantkit.Domain.{GoContext}
use tenantkit.Engine.{inject_tenant_filter}
use tenantkit.Extractor.{KeyOrder}
use tenantkit.Inject.{Value, Statement, Injected}
use tenantkit.Interceptor.{
  Interceptor, Decision, QueryError, inject_failed, ConfigError, nil_database, new_interceptor,
  should_filter,
}
use tenantkit.Placeholder.{PlaceholderStyle, dollar}
use tenantkit.QueryCache.{QueryCache, MapOrder, new_query_cache, clear, stats}
use tenantkit.Tables.{Config}
use tenantkit.Text.{Bytes}

pub record Db : Type 0 where
  pub interceptor : Interceptor
  pub config : Config
  pub style : PlaceholderStyle
  pub cache : QueryCache

-- A Tx holds what its DB held when it began; the DB itself, which it points to, is passed along.
pub record Tx : Type 0 where
  pub interceptor : Interceptor
  pub config : Config
  pub style : PlaceholderStyle

-- The *sql.Row of QueryRow: that of a statement, or the empty one.
pub data Row : Type 0 where
  row : Statement → Row
  empty_row crashed : Row

abbrev detect_placeholder_style : PlaceholderStyle
detect_placeholder_style = dollar

-- `given` is false for a nil *sql.DB.
unfoldable pub wrap : Bool → Config → Result ConfigError Db
unfolding new_interceptor new_query_cache
wrap given config =
    if given
    then (do
      interceptor ← new_interceptor config
      ok (record {
        interceptor = interceptor;
        config = config;
        style = detect_placeholder_style;
        cache = new_query_cache (pos 1000);
      }))
    else err nil_database

unfoldable pub wrap_with_style : Bool → Config → PlaceholderStyle → Result ConfigError Db
wrap_with_style given config style = do db ← wrap given config; ok (record db { style = style })

unfoldable pub must_wrap : Bool → Config → Result ConfigError Db
must_wrap given config = elim (wrap given config) [ ok db ↦ ok db | err e ↦ panic | panic ↦ panic ]

-- An error of the rewriting, wrapped.
unfoldable pub wrap_error : Injected → Result QueryError Statement
wrap_error (ok s) = ok s
wrap_error (err e) = err (inject_failed e)
wrap_error panic = panic

module _ (tables_order : KeyOrder) (order : MapOrder) where
  -- What follows the decision.
  unfoldable pub rewrite :
      Db → Result QueryError Decision → Bytes → List Value → Db × Result QueryError Statement
  unfolding wrap_error
  rewrite db (err e) query args = (db, err e)
  rewrite db panic query args = (db, panic)
  rewrite db (ok decision) query args =
      let (cache, result) =
        inject_tenant_filter db.config db.style order db.cache query decision.tenant_id args in
      if decision.requires_filtering
      then (record db { cache = cache }, wrap_error result)
      else (db, ok (record { query = query; args = args }))

  unfoldable pub query : Db → GoContext → Bytes → List Value → Db × Result QueryError Statement
  query db ctx sql args = rewrite db (should_filter tables_order db.interceptor ctx sql) sql args

  unfoldable pub exec : Db → GoContext → Bytes → List Value → Db × Result QueryError Statement
  exec db ctx sql args = rewrite db (should_filter tables_order db.interceptor ctx sql) sql args

  unfoldable pub row_of : Db × Result QueryError Statement → Db × Row
  row_of (db, ok s) = (db, row s)
  row_of (db, err e) = (db, empty_row)
  row_of (db, panic) = (db, crashed)

  unfoldable pub query_row : Db → GoContext → Bytes → List Value → Db × Row
  unfolding row_of
  query_row db ctx sql args =
      row_of (rewrite db (should_filter tables_order db.interceptor ctx sql) sql args)

  unfoldable pub tx_query :
      Tx → Db → GoContext → Bytes → List Value → Db × Result QueryError Statement
  tx_query tx db ctx sql args =
      rewrite db (should_filter tables_order tx.interceptor ctx sql) sql args

  unfoldable pub tx_exec :
      Tx → Db → GoContext → Bytes → List Value → Db × Result QueryError Statement
  tx_exec tx db ctx sql args =
      rewrite db (should_filter tables_order tx.interceptor ctx sql) sql args

  unfoldable pub tx_query_row : Tx → Db → GoContext → Bytes → List Value → Db × Row
  unfolding row_of
  tx_query_row tx db ctx sql args =
      row_of (rewrite db (should_filter tables_order tx.interceptor ctx sql) sql args)

-- `begun` is false where BeginTx fails.
unfoldable pub begin : Bool → Db → Option Tx
begin begun db =
    if begun
    then some (record { interceptor = db.interceptor; config = db.config; style = db.style })
    else none

unfoldable pub clear_query_cache : Db → Db
unfolding clear
clear_query_cache db = record db { cache = clear db.cache }

unfoldable pub query_cache_stats : Db → ℕ × ℕ × ℕ
unfolding stats
query_cache_stats db = stats db.cache
