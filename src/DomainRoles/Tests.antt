-- ===== src/DomainRoles/Tests.antt =====
-- Runs of the lanes, and the uses of their theorems at concrete inputs.
use qlerify_live.Prelude.{String, ◌≡◌, refl, true, false, none, List, [], ◌∷◌, Memᴰ, any, find}
use qlerify_live.Errors.{ok, throw, domain_error}
use qlerify_live.Connectors.Rules.{trim}
use qlerify_live.DomainRoles.{
  RoleRow, RoleInput, Directory, created, assign_domain_role, remove_domain_role, domain_roles_for,
  list_domain_roles, same_assignment, is_assignment,
}
use qlerify_live.DomainRoles.Laws.{assign_domain_role-again, remove_domain_role-assign_domain_role}

abbrev dir : Directory
dir = record {
  workflows = record { id = "flow"; organization_id = "acme" } ∷ [];
  memberships = record { identity_id = "ann"; organization_id = "acme"; status = "active" } ∷ [];
  identities = [];
}

abbrev input : String → String → RoleInput
input identity_id domain_role = record {
  organization_id = "acme";
  workflow_id = "flow";
  identity_id = identity_id;
  domain_role = domain_role;
  granted_by = none;
}

abbrev rows : List RoleRow
rows = created (input "ann" "Buyer") "Buyer" "r1" 5 ∷ []

abbrev after : List RoleRow
after =
    created (input "ann" "Buyer") "Buyer" "r1" 5
    ∷ created (input "ann" " Sales ") "Sales" "r2" 7
    ∷ []

assigned : assign_domain_role dir (input "ann" " Sales ") "r2" 7 rows ≡ ok (after, "r2")
unfolding assign_domain_role
assigned = refl

no_member :
    assign_domain_role dir (input "bob" "Sales") "r2" 7 rows
    ≡ throw (domain_error "member not found in this organization")
unfolding assign_domain_role
no_member = refl

listed : list_domain_roles (λ _ _. true) dir "acme" "flow" rows ≡ (
    record {
      id = "r1";
      identity_id = "ann";
      subject = "ann";
      domain_role = "Buyer";
      granted_at = 5;
    }
    ∷ [])
unfolding list_domain_roles
listed = refl

foreign_removal :
    remove_domain_role "other" "r1" rows
    ≡ throw (domain_error "assignment not found in this organization")
unfolding remove_domain_role
foreign_removal = refl

assign_domain_role-again_example :
    Memᴰ (trim " Sales ") (domain_roles_for (λ _ _. true) "acme" "flow" "ann" after)
    × (assign_domain_role dir (input "ann" " Sales ") "r3" 9 after ≡ ok (after, "r2"))
assign_domain_role-again_example =
    assign_domain_role-again (λ _ _. true) dir (input "ann" " Sales ") "r2" "r3" 7 9 rows after "r2"
      assigned

new_lane : find (same_assignment (input "ann" " Sales ") (trim " Sales ")) rows ≡ none
unfolding find same_assignment trim
new_lane = refl

new_id : any (is_assignment "acme" "r2") rows ≡ false
unfolding any
new_id = refl

remove_domain_role-assign_domain_role_example : remove_domain_role "acme" "r2" after ≡ ok rows
remove_domain_role-assign_domain_role_example =
    remove_domain_role-assign_domain_role dir (input "ann" " Sales ") "r2" 7 rows after "r2"
      new_lane new_id assigned
