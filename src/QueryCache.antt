-- ===== src/QueryCache.antt =====
-- tenantkit/query_cache.go: the cache of query transformations. The lock and the atomic counters
-- are gone: each operation is one step. `visit` is the order in which Go ranges over the map.
pub mod Bound
use Prim.Native.Nat.{bit_xor}
use mathlib.Core.List.Permᴰ
use mathlib.Core.List.{Permᴰ}
use tenantkit.Assoc.{lookup, insert, nat_eq}
use tenantkit.Decimal.{word_bound}
use tenantkit.Prelude.{
  ℕ, zero, suc, ◌+◌, ◌-◌, ◌*◌, ◌/◌, ◌%◌, Bool, true, false, ◌≡◌, List, [], ◌∷◌, Option, none, some,
  ltb, leb, ◌==◌, if◌then◌else◌, length, ℤ, is_at_most_zero, magnitude,
}
use tenantkit.Text.{Bytes}

pub record Entry : Type 0 where
  pub original_query : Bytes
  pub transformed_query : Bytes
  pub arg_count : ℕ
  pub is_tenant_query : Bool
  pub hash : ℕ

abbrev pub Entries : Type 0
Entries = List (ℕ × Entry)

pub record QueryCache : Type 0 where
  pub entries : Entries
  pub max_size : ℕ
  pub hits : ℕ
  pub misses : ℕ

-- The order in which Go ranges over a map is any order of its entries.
pub record MapOrder : Type 0 where
  pub visit : Entries → Entries
  pub visit_perm : (m : Entries) → Permᴰ (visit m) m

unfoldable pub new_query_cache : ℤ → QueryCache
new_query_cache max_size = record {
  entries = [];
  max_size = if is_at_most_zero max_size then 1000 else magnitude max_size;
  hits = 0;
  misses = 0;
}

-- hash/fnv: 64-bit FNV-1a
abbrev fnv_prime : ℕ
fnv_prime = 1_099_511_628_211

abbrev fnv_offset : ℕ
fnv_offset = 14_695_981_039_346_656_037

unfoldable pub fnv_from : ℕ → Bytes → ℕ
fnv_from h [] = h
fnv_from h (b ∷ s) = fnv_from ((bit_xor h b * fnv_prime) % word_bound) s

unfoldable pub hash_query : Bytes → ℕ
unfolding fnv_from
hash_query = fnv_from fnv_offset

-- `atomic.AddUint64(&n, 1)`
abbrev pub add_one : ℕ → ℕ
add_one n = (n + 1) % word_bound

-- The result is `none` where `found` is false.
unfoldable pub get : QueryCache → Bytes → QueryCache × Option Entry
get qc original_query = elim (lookup (hash_query original_query) qc.entries) [
  | some entry ↦ (record qc { hits = add_one qc.hits }, some entry)
  | none ↦ (record qc { misses = add_one qc.misses }, none)
]

-- The loop of `evictHalf`: what is left once `to_remove` entries are removed.
unfoldable pub evict_loop : ℕ → ℕ → Entries → Entries
evict_loop to_remove removed [] = []
evict_loop to_remove removed (e ∷ es) =
    let more = evict_loop to_remove (removed + 1) es in
    if leb to_remove (removed + 1) then es else more

module _ (order : MapOrder) where
  unfoldable pub evict_half : QueryCache → QueryCache
  unfolding evict_loop
  evict_half qc =
      let target_size = qc.max_size / 2 in
      if leb (length qc.entries) target_size then qc else record qc {
        entries = evict_loop (length qc.entries - target_size) 0 (order.visit qc.entries);
      }

  -- The cache that `Put` stores into.
  unfoldable pub make_room : QueryCache → QueryCache
  unfolding evict_half
  make_room qc = if leb qc.max_size (length qc.entries) then evict_half qc else qc

  unfoldable pub put : QueryCache → Bytes → Bytes → ℕ → Bool → QueryCache
  unfolding make_room
  put qc original_query transformed_query arg_count is_tenant_query =
      let hash = hash_query original_query in
      let room = make_room qc in
      record room {
        entries =
            insert hash
              (record {
                original_query = original_query;
                transformed_query = transformed_query;
                arg_count = arg_count;
                is_tenant_query = is_tenant_query;
                hash = hash;
              })
              room.entries;
      }

unfoldable pub clear : QueryCache → QueryCache
clear qc = record qc { entries = []; hits = 0; misses = 0 }

-- The hit rate, a float, is left out.
unfoldable pub stats : QueryCache → ℕ × ℕ × ℕ
stats qc = (qc.hits, qc.misses, length qc.entries)
