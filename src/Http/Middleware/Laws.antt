-- ===== src/Http/Middleware/Laws.antt =====
-- The tenant that a handler behind the middleware sees is the one that the resolver has found.
use tenantkit.Prelude.{
  ℕ, ◌≡◌, refl, ap, ◌∙◌, ◌≢◌, inl, inr, true, false, Option, none, some, [], ◌∷◌, arith, Bool-cases,
  ok, err, panic, Result-cases,
}
use tenantkit.Domain.{
  Context, GoContext, new_context, to_go_context, value_of, tenant_id_key, DomainError, TenantId,
  new_tenant_id, validate_tenant_id, matches_id,
}
use tenantkit.Domain.Laws.{accepted}
use tenantkit.Http.{Request}
use tenantkit.Http.Middleware.{
  Middleware, should_skip, serve_tenant, serve_resolved, handler, bad_tenant, unresolved,
}
use tenantkit.TenantContext.{get_tenant}
use tenantkit.TenantContext.Laws.{get_tenant-to_go_context}
use tenantkit.Text.{Bytes, codes, bytes_eq, to_lower}
use tenantkit.Http.Resolver.{ResolveError}

module _ {ℓ} {R : Type ℓ} (m : Middleware R) (next : Request → R) (r : Request) where
  -- What becomes of a request: the next handler runs with the tenant that was found, or not at all.
  pub data IsServed (result : Option R) : Type ℓ where
    skipped : should_skip m.skip_paths r.path ≡ true → result ≡ some (next r) → IsServed result
    entered :
        (tenant_id : Bytes) (ctx : GoContext)
        → should_skip m.skip_paths r.path ≡ false
        → m.resolve r ≡ ok tenant_id
        → get_tenant ctx ≡ (to_lower tenant_id, true)
        → result ≡ some (next (record r { ctx = ctx }))
        → IsServed result
    invalid :
        (tenant_id : Bytes) (e : DomainError)
        → should_skip m.skip_paths r.path ≡ false
        → m.resolve r ≡ ok tenant_id
        → new_tenant_id tenant_id ≡ err e
        → result ≡ some (m.on_error r (bad_tenant e))
        → IsServed result
    unresolved_request :
        (e : ResolveError)
        → should_skip m.skip_paths r.path ≡ false
        → m.resolve r ≡ err e
        → result ≡ some (m.on_error r (unresolved e))
        → IsServed result
    crashed :
        should_skip m.skip_paths r.path ≡ false
        → m.resolve r ≡ panic
        → result ≡ none
        → IsServed result

-- The context that NewContext makes with a user and a request id.
made_context :
    (now : ℕ) (tenant_id user request : Bytes) (tid : TenantId)
    → new_tenant_id tenant_id ≡ ok tid
    → bytes_eq user [] ≡ false
    → bytes_eq request [] ≡ false
    → new_context now tenant_id user request
      ≡ ok (record { tenant_id = tid; user_id = user; request_id = request; timestamp = now })
unfolding new_context
made_context now tenant_id user request tid made u q = rw (made, u, q) refl

unmade_context :
    (now : ℕ) (tenant_id user request : Bytes) (e : DomainError)
    → new_tenant_id tenant_id ≡ err e
    → new_context now tenant_id user request ≡ err e
unfolding new_context
unmade_context now tenant_id user request e h = rw h refl

new_tenant_id-lower :
    (id : Bytes) (tid : TenantId) → new_tenant_id id ≡ ok tid → tid.value ≡ to_lower id
new_tenant_id-lower id tid h = (accepted id tid h).lower

never_panics : (id : Bytes) → new_tenant_id id ≢ panic
unfolding new_tenant_id validate_tenant_id matches_id
never_panics [] h = absurd (cc)
never_panics (c ∷ s) h = ground arith

-- A context that NewContext has made gives its tenant to the rest of the library.
seen :
    (now : ℕ) (tenant_id user request : Bytes) (c : Context) (ctx : GoContext) (tid : TenantId)
    → new_context now tenant_id user request ≡ ok c
    → new_tenant_id tenant_id ≡ ok tid
    → c.tenant_id ≡ tid
    → value_of ctx tenant_id_key ≡ none
    → get_tenant (to_go_context c ctx) ≡ (to_lower tenant_id, true)
seen now tenant_id user request c ctx tid made valid same unset =
    let value : c.tenant_id.value ≡ to_lower tenant_id =
      ap (λ (t : TenantId). t.value) same ∙ new_tenant_id-lower tenant_id tid valid in
    get_tenant-to_go_context now tenant_id user request c ctx made unset
    ∙ ap (λ (v : Bytes). (v, true)) value

serve_resolved-IsServed {ℓ} :
    {R : Type ℓ} (m : Middleware R) (next : Request → R) (now : ℕ) (r : Request) (tenant_id : Bytes)
    → should_skip m.skip_paths r.path ≡ false
    → m.resolve r ≡ ok tenant_id
    → value_of r.ctx tenant_id_key ≡ none
    → IsServed m next r (serve_resolved m next now r (ok tenant_id))
unfolding serve_resolved serve_tenant bytes_eq
serve_resolved-IsServed m next now r tenant_id kept found unset =
    elim (Result-cases (new_tenant_id tenant_id)) [
      | inl (tid, made) ↦
          let c =
            made_context now tenant_id (codes "system") (codes "http-request") tid made refl refl in
          rw c (
            entered tenant_id (to_go_context _ r.ctx) kept found
              (seen now tenant_id _ _ _ r.ctx tid c made refl unset) refl)
      | inr (inl (e, bad)) ↦
          rw (unmade_context now tenant_id (codes "system") (codes "http-request") e bad)
            (invalid tenant_id e kept found bad refl)
      | inr (inr bad) ↦ absurd (never_panics tenant_id bad)
    ]

-- What becomes of a request whose context has nothing under the key of WithTenant: the next handler
-- runs on it as it is if its path is skipped, and only then; if it is not skipped and the resolver
-- finds an id, it runs with a context in which the rest of the library finds that id in lower case,
-- or the error handler runs because the id is not valid; if it is not skipped and the resolver
-- fails, the error handler runs, and a panic of the resolver goes through.
pub handler-IsServed {ℓ} :
    {R : Type ℓ} (m : Middleware R) (next : Request → R) (now : ℕ) (r : Request)
    → value_of r.ctx tenant_id_key ≡ none
    → IsServed m next r (handler m next now r)
unfolding handler
handler-IsServed m next now r unset = elim (Bool-cases (should_skip m.skip_paths r.path)) [
  | inl skip ↦ rw skip (skipped skip refl)
  | inr kept ↦ elim (Result-cases (m.resolve r)) [
    | inl (tenant_id, found) ↦
        rw (kept, found) (serve_resolved-IsServed m next now r tenant_id kept found unset)
    | inr (inl (e, failed)) ↦
        rw (kept, failed) (unfold serve_resolved in unresolved_request e kept failed refl)
    | inr (inr failed) ↦ rw (kept, failed) (unfold serve_resolved in crashed kept failed refl)
  ]
]
