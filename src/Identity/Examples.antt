-- ===== src/Identity/Examples.antt =====
-- A claim of an agent, with a name that is no role.
use orvexa.Base.{◌∷◌, ◌≡◌, [], true}
use orvexa.Identity.{parse_role, role_capabilities, case_write, static_binding}
use orvexa.Identity.Catalogue.{has}
use orvexa.Identity.Claims.{static_binding-grants}

static_binding-grants_example :
    has case_write (static_binding ("agent" ∷ "root" ∷ [])).capabilities ≡ true
unfolding parse_role role_capabilities
static_binding-grants_example = static_binding-grants ("agent" ∷ "root" ∷ []) case_write
