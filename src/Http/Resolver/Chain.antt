-- ===== src/Http/Resolver/Chain.antt =====
-- Which resolver of a chain decides, and which tokens an Authorization header carries.
use tenantkit.Prelude.{
  ◌≡◌, refl, ap, ◌∙◌, ◌↔◌, inl, inr, List, [], ◌∷◌, ◌++◌, All, ok, err, Result-cases,
}
use tenantkit.Http.{Request}
use tenantkit.Http.Resolver.{ResolveError, Resolved, resolve_chain, chain_resolvers, no_resolvers}
use tenantkit.Text.{Bytes}

-- The first resolver that does not fail is one that finds the tenant id.
pub record IsFirst (resolvers : List (Request → Resolved)) (req : Request) (t : Bytes)
    : Type 0 where
  pub before : List (Request → Resolved)
  pub chosen : Request → Resolved
  pub after : List (Request → Resolved)
  pub order : resolvers ≡ before ++ (chosen ∷ after)
  pub failed : All (λ r. (e : ResolveError) × (r req ≡ err e)) before
  pub found : chosen req ≡ ok t

resolve_chain-only :
    (resolvers : List (Request → Resolved)) (req : Request) (last : ResolveError) (t : Bytes)
    → resolve_chain resolvers req last ≡ ok t
    → IsFirst resolvers req t
unfolding resolve_chain
resolve_chain-only [] req last t h = absurd (cc)
resolve_chain-only (r ∷ resolvers) req last t h = elim (Result-cases (r req)) [
  | inl (u, e) ↦ record {
    before = [];
    chosen = r;
    after = resolvers;
    order = refl;
    failed = tt;
    found = e ∙ rw e at h;
  }
  | inr (inl (error, e)) ↦
      let rest = resolve_chain-only resolvers req error t (rw e at h) in
      record {
        before = r ∷ rest.before;
        chosen = rest.chosen;
        after = rest.after;
        order = ap (◌∷◌ r) rest.order;
        failed = ((error, e), rest.failed);
        found = rest.found;
      }
  | inr (inr e) ↦ absurd (let bad = rw e at h in cc)
]

resolve_chain-found :
    (before after : List (Request → Resolved)) (chosen : Request → Resolved) (req : Request)
    (last : ResolveError) (t : Bytes)
    → All (λ r. (e : ResolveError) × (r req ≡ err e)) before
    → chosen req ≡ ok t
    → resolve_chain (before ++ (chosen ∷ after)) req last ≡ ok t
unfolding resolve_chain
resolve_chain-found [] after chosen req last t failed found = rw found refl
resolve_chain-found (r ∷ before) after chosen req last t ((e, h), failed) found =
    rw h (resolve_chain-found before after chosen req e t failed found)

-- A chain finds an id exactly if the first of its resolvers that does not fail finds it.
pub chain_resolvers_iff :
    (resolvers : List (Request → Resolved)) (req : Request) (t : Bytes)
    → (chain_resolvers resolvers req ≡ ok t) ↔ IsFirst resolvers req t
unfolding chain_resolvers
chain_resolvers_iff resolvers req t = (
  resolve_chain-only resolvers req no_resolvers t,
  λ first. rw first.order (
      resolve_chain-found first.before first.after first.chosen req no_resolvers t first.failed
        first.found),
)
