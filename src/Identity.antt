-- ===== src/Identity.antt =====
-- internal/identity/roles.go: the closed role and capability sets, the catalogue, and the binding
-- of a roles claim. A Go map with Boolean values is a function here.
pub mod Catalogue
pub mod Claims
mod Examples
use orvexa.Base.{
  ◌∷◌, List, Option, Bool, String, false, if◌then◌else◌, [], any, true, select, ◌&&◌, str_eq, some,
  none,
}
use mathlib.Core.Option.{none}

pub data Role : Type 0 where
  viewer agent supervisor admin : Role

pub data Capability : Type 0 where
  interaction_read interaction_write case_read case_write workflow_run search_read admin_org :
      Capability

abbrev pub same_role : Role → Role → Bool
same_role viewer viewer = true
same_role agent agent = true
same_role supervisor supervisor = true
same_role admin admin = true
same_role _ _ = false

abbrev pub same_capability : Capability → Capability → Bool
same_capability interaction_read interaction_read = true
same_capability interaction_write interaction_write = true
same_capability case_read case_read = true
same_capability case_write case_write = true
same_capability workflow_run workflow_run = true
same_capability search_read search_read = true
same_capability admin_org admin_org = true
same_capability _ _ = false

unfoldable pub capability_order : List Capability
capability_order =
    interaction_read ∷ interaction_write ∷ case_read ∷ case_write ∷ workflow_run ∷ search_read
    ∷ admin_org ∷ []

-- The map roleCapabilities.
unfoldable pub role_capabilities : Role → List Capability
role_capabilities viewer = interaction_read ∷ case_read ∷ search_read ∷ []
role_capabilities agent =
    interaction_read ∷ interaction_write ∷ case_read ∷ case_write ∷ search_read ∷ []
role_capabilities supervisor =
    interaction_read ∷ interaction_write ∷ case_read ∷ case_write ∷ workflow_run ∷ search_read ∷ []
role_capabilities admin =
    interaction_read ∷ interaction_write ∷ case_read ∷ case_write ∷ workflow_run ∷ search_read
    ∷ admin_org ∷ []

unfoldable pub parse_role : String → Option Role
parse_role s =
    if str_eq s "viewer"
    then some viewer
    else if str_eq s "agent"
    then some agent
    else if str_eq s "supervisor"
    then some supervisor
    else if str_eq s "admin"
    then some admin
    else none

pub record Binding : Type 0 where
  pub roles : List Role
  pub capabilities : List Capability

abbrev pub names_role : Role → Option Role → Bool
names_role r none = false
names_role r (some q) = same_role q r

-- The set roleSet of staticBinding.
unfoldable pub role_set : List String → Role → Bool
role_set claim r = any (λ s. names_role r (parse_role s)) claim

unfoldable pub ordered_roles : (Role → Bool) → List Role
ordered_roles set = select set (viewer ∷ agent ∷ supervisor ∷ admin ∷ [])

-- The set `granted` of capabilitiesForRoles.
unfoldable pub granted : (Role → Bool) → Capability → Bool
unfolding role_capabilities
granted set c =
    any (λ r. set r && any (λ d. same_capability d c) (role_capabilities r))
      (viewer ∷ agent ∷ supervisor ∷ admin ∷ [])

unfoldable pub capabilities_for_roles : (Role → Bool) → List Capability
unfolding granted capability_order
capabilities_for_roles set = select (granted set) capability_order

-- capabilitiesFromSet, for the names that the database query yields
unfoldable pub capabilities_from_set : (Capability → Bool) → List Capability
unfolding capability_order
capabilities_from_set set = select set capability_order

unfoldable pub static_binding : List String → Binding
unfolding ordered_roles capabilities_for_roles role_set
static_binding claim = record {
  roles = ordered_roles (role_set claim);
  capabilities = capabilities_for_roles (role_set claim);
}
