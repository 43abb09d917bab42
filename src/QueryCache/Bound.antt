-- ===== src/QueryCache/Bound.antt =====
-- The size of the cache, and what survives an eviction.
use mathlib.Core.List.{Permᴰ}
use tenantkit.Assoc.{nat_eq}
use tenantkit.Assoc.Laws.{length-insert-le}
use tenantkit.Prelude.{
  ℕ, ◌+◌, ◌-◌, ◌/◌, ◌≤◌, ◌<◌, Bool, ◌≡◌, refl, List, [], ◌∷◌, leb, length, All, arith, Bool-cases,
  inl, inr, min,
}
use tenantkit.Text.{Bytes}
use tenantkit.QueryCache.{
  Entry, Entries, QueryCache, MapOrder, hash_query, evict_loop, evict_half, make_room, put,
}

length-perm {ℓ} : {A : Type ℓ} {xs ys : List A} → Permᴰ xs ys → length xs ≡ length ys
length-perm Permᴰ.nil = refl
length-perm (Permᴰ.cons e p) = omega (arith, length-perm p)
length-perm (Permᴰ.swap e f) = refl
length-perm (Permᴰ.trans p q) = omega (arith, length-perm p, length-perm q)

pub All-perm {ℓ κ} :
    {A : Type ℓ} (P : A → Type κ) {xs ys : List A} → Permᴰ xs ys → All P ys → All P xs
All-perm P Permᴰ.nil h = tt
All-perm P (Permᴰ.cons e p) (h, hs) = (rw e h, All-perm P p hs)
All-perm P (Permᴰ.swap e f) (h, (k, hs)) = (rw e k, (rw f h, hs))
All-perm P (Permᴰ.trans p q) h = All-perm P p (All-perm P q h)

length-evict_loop :
    (to_remove removed : ℕ) (es : Entries)
    → removed < to_remove
    → length (evict_loop to_remove removed es) ≡ length es - (to_remove - removed)
unfolding evict_loop
length-evict_loop to_remove removed [] h = omega arith
length-evict_loop to_remove removed (e ∷ es) h =
    ground (arith, length-evict_loop to_remove (removed + 1) es)

All-evict_loop {κ} :
    (P : ℕ × Entry → Type κ) (to_remove removed : ℕ) (es : Entries)
    → All P es
    → All P (evict_loop to_remove removed es)
unfolding evict_loop
All-evict_loop P to_remove removed [] h = tt
All-evict_loop P to_remove removed (e ∷ es) (p, h) =
    elim (Bool-cases (leb to_remove (removed + 1))) [
      | inl stop ↦ rw stop h
      | inr more ↦ rw more (All-evict_loop P to_remove (removed + 1) es h)
    ]

-- At most `max_size` entries.
pub record IsBounded (qc : QueryCache) : Type 0 where
  pub positive : 0 < qc.max_size
  pub bounded : length qc.entries ≤ qc.max_size

module _ (order : MapOrder) (qc : QueryCache) where
  -- An eviction leaves half of the maximum, or what was there if that is less.
  pub length-evict_half :
      length (evict_half order qc).entries ≡ min (length qc.entries) (qc.max_size / 2)
  unfolding evict_half
  length-evict_half = ground (
    arith,
    length-perm (order.visit_perm qc.entries),
    length-evict_loop (length qc.entries - qc.max_size / 2) 0 (order.visit qc.entries),
  )

  pub All-make_room {κ} :
      (P : ℕ × Entry → Type κ) → All P qc.entries → All P (make_room order qc).entries
  unfolding make_room evict_half
  All-make_room P h = elim (Bool-cases (leb qc.max_size (length qc.entries))) [
    | inr room ↦ rw room h
    | inl full ↦ rw full (elim (Bool-cases (leb (length qc.entries) (qc.max_size / 2))) [
      | inl small ↦ rw small h
      | inr large ↦ rw large (
          All-evict_loop P _ 0 (order.visit qc.entries)
            (All-perm P (order.visit_perm qc.entries) h))
    ])
  ]

  length-make_room : IsBounded qc → length (make_room order qc).entries < qc.max_size
  unfolding make_room
  length-make_room h = ground (arith, length-evict_half)

  max_size-make_room : (make_room order qc).max_size ≡ qc.max_size
  unfolding make_room evict_half
  max_size-make_room = ground arith

  pub put-IsBounded :
      (q t : Bytes) (n : ℕ) (b : Bool) → IsBounded qc → IsBounded (put order qc q t n b)
  unfolding put
  put-IsBounded q t n b h = record {
    positive = omega (arith, max_size-make_room, h.positive);
    bounded = omega (
      arith,
      max_size-make_room,
      length-make_room h,
      length-insert-le (hash_query q)
          (record {
            original_query = q;
            transformed_query = t;
            arg_count = n;
            is_tenant_query = b;
            hash = hash_query q;
          })
          (make_room order qc).entries,
    );
  }
