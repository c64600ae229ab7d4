-- ===== src/Identity/Claims.antt =====
-- What a roles claim grants, by staticBinding of internal/identity/roles.go.
use orvexa.Base.{
  ◌∷◌, Option, Bool, List, String, ◌≡◌, select, false, ◌||◌, some, arith, any, refl, ◌∙◌, ap,
}
use orvexa.Identity.{
  role_set, static_binding, Capability, granted, capability_order, role_capabilities,
  capabilities_for_roles, Role, names_role, interaction_read, parse_role, interaction_write, viewer,
  case_read, agent, case_write, supervisor, workflow_run, admin, search_read, admin_org,
}
use orvexa.Identity.Catalogue.{has}
use mathlib.Core.Option.{none}
use mathlib.Core.List.{[]}

-- The capability is one of the role that was named, if it is a role.
abbrev pub grants : Capability → Option Role → Bool
grants c none = false
grants c (some r) = has c (role_capabilities r)

granted-more :
    (o : Option Role) (set : Role → Bool) (c : Capability)
    → granted (λ r. names_role r o || set r) c ≡ (grants c o || granted set c)
unfolding granted role_capabilities
granted-more none set c = refl
granted-more (some viewer) set c = ground arith
granted-more (some agent) set c = ground arith
granted-more (some supervisor) set c = ground arith
granted-more (some admin) set c = ground arith

granted_nothing : (c : Capability) → granted (λ r. false) c ≡ false
unfolding granted
granted_nothing c = refl

granted_claim :
    (claim : List String) (c : Capability)
    → granted (role_set claim) c ≡ any (λ s. grants c (parse_role s)) claim
unfolding role_set
granted_claim [] c = granted_nothing c
granted_claim (s ∷ claim) c =
    granted-more (parse_role s) (role_set claim) c
    ∙ ap (◌||◌ (grants c (parse_role s))) (granted_claim claim c)

has-order : (set : Capability → Bool) (c : Capability) → has c (select set capability_order) ≡ set c
unfolding capability_order
has-order set interaction_read = ground arith
has-order set interaction_write = ground arith
has-order set case_read = ground arith
has-order set case_write = ground arith
has-order set workflow_run = ground arith
has-order set search_read = ground arith
has-order set admin_org = ground arith

-- The binding of a roles claim has a capability exactly when the claim names a role whose
-- catalogue entry has it; names that are no role grant nothing.
pub static_binding-grants :
    (claim : List String) (c : Capability)
    → has c (static_binding claim).capabilities ≡ any (λ s. grants c (parse_role s)) claim
unfolding static_binding capabilities_for_roles
static_binding-grants claim c = has-order (granted (role_set claim)) c ∙ granted_claim claim c
