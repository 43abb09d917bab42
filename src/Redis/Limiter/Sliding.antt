-- ===== src/Redis/Limiter/Sliding.antt =====
-- The sliding window in Redis: the requests of one millisecond are one member of its set.
use tenantkit.Prelude.{
  ℕ, zero, suc, ◌+◌, ◌*◌, ◌≤◌, ◌<◌, ◌≡◌, refl, ◌∙◌, ◌⊎◌, inl, inr, true, false, [], ◌∷◌, ◌++◌,
  arith, leb, ◌==◌, length,
}
use tenantkit.Assoc.{insert, delete_where, text_eq}
use tenantkit.Decimal.{show}
use tenantkit.Redis.{Redis}
use tenantkit.Redis.Limiter.{Structures, add_members, sliding_window_script}
use tenantkit.Redis.Limiter.Bucket.{granted}
use tenantkit.Text.{Bytes}
use tenantkit.Text.Equality.{bytes_eq_refl}

-- What so many runs of the script at one time, for a request each, let through.
unfoldable pub sliding_all : (r : Redis) → Structures r → Bytes → ℕ → ℕ → ℕ → r.State → ℕ → ℕ
sliding_all r c key limit window now s zero = 0
sliding_all r c key limit window now s (suc k) =
    let (after, reply) = sliding_window_script r c s key limit window now 1 in
    granted 1 reply + sliding_all r c key limit window now after k

module _ (r : Redis) (c : Structures r) (key : Bytes) (limit window now : ℕ) (lasting : 0 < window)
    (roomy : 2 ≤ limit) where
  -- The member of the first request of a run.
  abbrev member : Bytes
  member = show now ++ (b':' ∷ show 1)

  -- Nothing is counted, or the one member of this time.
  abbrev IsSingle : r.State → Type 0
  IsSingle s = (c.zset s key ≡ []) ⊎ (c.zset s key ≡ (member, now) ∷ [])

  kept-IsSingle : (s : r.State) → IsSingle s → IsSingle (c.zrem s key now (window * 1000))
  unfolding delete_where
  kept-IsSingle s (inl e) = inl (c.zset-zrem s key now (window * 1000) ∙ rw e refl)
  kept-IsSingle s (inr e) =
      let recent : leb (now + window * 1000) now ≡ false = ground (arith, lasting) in
      inr (c.zset-zrem s key now (window * 1000) ∙ rw (e, recent) refl)

  added : (s : r.State) → IsSingle s → c.zset (c.zadd s key now member) key ≡ (member, now) ∷ []
  unfolding insert
  added s (inl e) = c.zset-zadd s key now member ∙ rw e refl
  added s (inr e) = c.zset-zadd s key now member ∙ rw (e, bytes_eq_refl member) refl

  few : (s : r.State) → IsSingle s → leb (length (c.zset s key) + 1) limit ≡ true
  few s (inl e) = rw e (ground (arith, roomy))
  few s (inr e) = rw e (ground (arith, roomy))

  run_once :
      (s : r.State)
      → IsSingle s
      → (granted 1 (sliding_window_script r c s key limit window now 1).1 ≡ 1)
        × IsSingle (sliding_window_script r c s key limit window now 1).0
  unfolding sliding_window_script add_members
  run_once s single =
      let kept = c.zrem s key now (window * 1000) in
      let h = kept-IsSingle s single in
      let stays : (window * 2 == 0) ≡ false = ground (arith, lasting) in
      rw (few kept h) (
        refl,
        inr (c.zset-expire (c.zadd kept key now member) key (window * 2) ∙ rw stays (added kept h)),
      )

  single-all : (k : ℕ) (s : r.State) → IsSingle s → sliding_all r c key limit window now s k ≡ k
  unfolding sliding_all
  single-all zero s single = refl
  single-all (suc k) s single =
      let (one, after) = run_once s single in
      rw (one, single-all k (sliding_window_script r c s key limit window now 1).0 after)
        (omega arith)

-- Runs of the sliding window script for one request each in the same millisecond, on a key that
-- Redis does not have, are all let through, however many they are, if the limit is at least 2 and
-- the window at least a second.
pub sliding_all-unlimited :
    (r : Redis) (c : Structures r) (key : Bytes) (limit window now k : ℕ) (s : r.State)
    → 0 < window
    → 2 ≤ limit
    → c.zset s key ≡ []
    → sliding_all r c key limit window now s k ≡ k
sliding_all-unlimited r c key limit window now k s lasting roomy fresh =
    single-all r c key limit window now lasting roomy k s (inl fresh)
