-- ===== src/Identity/Catalogue.antt =====
-- The catalogue of internal/identity/roles.go.
use orvexa.Base.{List, ◌≤◌, ℕ, ◌≡◌, Bool, any, true, arith}
use orvexa.Identity.{
  Role, role_capabilities, Capability, viewer, agent, supervisor, same_capability, admin,
}

abbrev pub has : Capability → List Capability → Bool
has c cs = any (λ d. same_capability d c) cs

abbrev pub rank : Role → ℕ
rank viewer = 0
rank agent = 1
rank supervisor = 2
rank admin = 3

-- A role has every capability of the roles below it.
pub role_capabilities_mono :
    (r s : Role) (c : Capability)
    → rank r ≤ rank s
    → has c (role_capabilities r) ≡ true
    → has c (role_capabilities s) ≡ true
unfolding role_capabilities
role_capabilities_mono viewer s c le h = ground arith
role_capabilities_mono agent s c le h = ground arith
role_capabilities_mono supervisor s c le h = ground arith
role_capabilities_mono admin s c le h = ground arith
