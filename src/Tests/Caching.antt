-- ===== src/Tests/Caching.antt =====
-- The cache, and the rewriting behind it.
use tenantkit.Prelude.{
  some, ℕ, ◌+◌, ◌<◌, ◌≡◌, refl, true, none, List, [], ◌∷◌, map, arith, All, ok, pos,
}
use tenantkit.Tests.{map_order, shop_config, shop, deletion, running, Only, Only-IsSafe}
use tenantkit.Assoc.{lookup, nat_eq}
use tenantkit.Engine.{kind_of, delete, insert, inject_tenant_filter}
use tenantkit.Engine.Plain.{inject_plain}
use tenantkit.Engine.Repeat.{second_insert_misplaced}
use tenantkit.Engine.Sequence.{Request, run, plain, run-transparent, run-IsBounded}
use tenantkit.Inject.{
  other, text, Statement, inject_insert, insert_parts, insert_text, column_exists_in_list,
}
use tenantkit.Placeholder.{dollar, renumber_placeholders, digit_run}
use tenantkit.Placeholder.Numbers.{numbers_of}
use tenantkit.Placeholder.Renumber.{shift_all, renumber-shift_all}
use tenantkit.QueryCache.{Entry, QueryCache, hash_query, new_query_cache}
use tenantkit.QueryCache.Bound.{IsBounded}
use tenantkit.Tables.{joined_tables, TableRef}
use tenantkit.Tables.Fuel.{joined_tables-fuel}
use tenantkit.Text.{Bytes, codes, trim_space}

-- The same text for two tenants.
abbrev two_calls : List Request
two_calls =
    record { query = deletion; tenant_id = codes "acme"; args = other 7 ∷ [] }
    ∷ record { query = deletion; tenant_id = codes "globex"; args = other 8 ∷ [] }
    ∷ []

deletion-kind : kind_of (trim_space deletion) ≡ delete
unfolding running
deletion-kind = refl

run-transparent_example :
    (run shop_config dollar map_order (new_query_cache (pos 1)) two_calls).1
    ≡ map (plain shop_config dollar) two_calls
run-transparent_example =
    run-transparent shop_config dollar (Only (trim_space deletion)) map_order (pos 1) two_calls
      (Only-IsSafe (trim_space deletion) (rw deletion-kind (λ e. absurd cc))) (refl, (refl, tt))

run-IsBounded_example : IsBounded (run shop_config dollar map_order shop.cache two_calls).0
run-IsBounded_example =
    run-IsBounded shop_config dollar map_order shop.cache two_calls
      (record { positive = omega arith; bounded = omega arith })

abbrev entry : ℕ → Entry
entry h = record {
  original_query = [];
  transformed_query = [];
  arg_count = 1;
  is_tenant_query = true;
  hash = h;
}

abbrev full : QueryCache
full = record {
  entries = (1, entry 1) ∷ (2, entry 2) ∷ (3, entry 3) ∷ [];
  max_size = 3;
  hits = 0;
  misses = 0;
}

abbrev insertion : Bytes
insertion = codes "INSERT INTO users (name) VALUES ($1)"

insertion-kind : kind_of (trim_space insertion) ≡ insert
unfolding running
insertion-kind = refl

insertion-absent : lookup (hash_query (trim_space insertion)) shop.cache.entries ≡ none
unfolding running
insertion-absent = refl

abbrev inserted : Statement
inserted = record {
  query = codes "INSERT INTO users (tenant_id, name) VALUES ($1, $2)";
  args = text (codes "acme") ∷ other 7 ∷ [];
}

insertion-run :
    inject_plain shop_config dollar insertion (codes "acme") (other 7 ∷ []) ≡ ok inserted
unfolding running inject_plain inject_insert insert_parts insert_text column_exists_in_list
    renumber_placeholders
insertion-run = refl

second_insert_misplaced_example :
    ((inject_tenant_filter shop_config dollar map_order
        (inject_tenant_filter shop_config dollar map_order shop.cache insertion
          (codes "acme")
          (other 7 ∷ [])).0
        insertion
        (codes "globex")
        (other 8 ∷ [])).1
      ≡ ok (record { query = inserted.query; args = other 8 ∷ text (codes "globex") ∷ [] }))
    × (inject_plain shop_config dollar insertion (codes "globex") (other 8 ∷ [])
        ≡ ok (record { query = inserted.query; args = text (codes "globex") ∷ other 8 ∷ [] }))
second_insert_misplaced_example =
    second_insert_misplaced shop_config map_order shop.cache insertion (codes "acme") (other 7 ∷ [])
      inserted (codes "globex") (other 8 ∷ []) insertion-absent insertion-kind insertion-run refl

abbrev marked : Bytes
marked = codes "UPDATE users SET a = ? WHERE b = ?"

abbrev tenant_mark : Bytes
tenant_mark = codes "tenant_id = ?"

abbrev numbered : Bytes
numbered = codes "($1, $10, $2)"

renumber-shift_all_example : renumber_placeholders dollar numbered 1 ≡ shift_all 1 numbered
renumber-shift_all_example = renumber-shift_all numbered 1

numbered-small : All (λ n. n + 1 < 9_223_372_036_854_775_808) (numbers_of numbered)
unfolding numbers_of digit_run running
numbered-small = (omega arith, (omega arith, (omega arith, tt)))

abbrev joins : Bytes
joins = codes "A JOIN B ON A.X = B.X"

joined_tables-fuel_example :
    (ts : List TableRef) × (joined_tables 22 joins joins ≡ some ts)
    × (joined_tables 40 joins joins ≡ some ts)
joined_tables-fuel_example = joined_tables-fuel 22 40 joins joins (omega arith) (omega arith)
