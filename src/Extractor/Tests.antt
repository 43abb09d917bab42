-- ===== src/Extractor/Tests.antt =====
-- Runs of the extraction.
use tenantkit.Prelude.{◌≡◌, refl, [], ◌∷◌}
use tenantkit.Text.{codes, bytes_eq, trim_space, to_lower}
use tenantkit.Extractor.{tables_of, collapse, add_matches, add_list, add_part, add_name}
use tenantkit.Regexp.{submatch, find_all_submatch, find_submatch, match_at}

extraction : Unit {0}
unfolding tables_of bytes_eq trim_space collapse to_lower add_matches add_list add_part add_name
    submatch find_all_submatch find_submatch match_at
extraction = tt

joined_query :
    tables_of (codes "SELECT a FROM users u JOIN public.orders o ON u.id = o.id")
    ≡ codes "users" ∷ codes "orders" ∷ []
unfolding extraction
joined_query = refl

newline_query : tables_of (codes "select *\nfrom Users") ≡ codes "users" ∷ []
unfolding extraction
newline_query = refl

comma_query : tables_of (codes "select a from b, c") ≡ codes "b" ∷ codes "c" ∷ []
unfolding extraction
comma_query = refl
