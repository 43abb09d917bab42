-- ===== src/Enforcer/Laws.antt =====
-- What the enforcer makes of a query, and what it refuses.
use tenantkit.Prelude.{◌≡◌, ◌⊎◌, true, List, ◌++◌}
use tenantkit.Enforcer.{Enforcer}
use tenantkit.Text.{Bytes, codes, to_upper, has_prefix}

-- `tenant_id = 'acme'`
abbrev pub condition_text : Enforcer → Bytes → Bytes
condition_text e tenant_id = e.tenant_column ++ (codes " = '" ++ (tenant_id ++ codes "'"))

-- The query is one that the enforcer rewrites.
abbrev pub IsFiltered : Bytes → Type 0
IsFiltered query =
    (has_prefix (to_upper query) (codes "SELECT") ≡ true)
    ⊎ ((has_prefix (to_upper query) (codes "DELETE") ≡ true)
        ⊎ (has_prefix (to_upper query) (codes "UPDATE") ≡ true))
