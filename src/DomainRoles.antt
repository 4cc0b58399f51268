-- ===== src/DomainRoles.antt =====
-- platform/domain-roles.ts: which member plays which lane of a workflow. The tables are lists of rows;
-- the id of a new row, the time and the database's order of texts are arguments.
mod Laws
mod Tests
use qlerify_live.Prelude.{
  ℕ, String, Bool, true, false, Option, none, some, List, [], ◌∷◌, ◌++◌, ◌==◌, ◌&&◌, string_eq, not,
  if◌then◌else◌, leb, map, any, filter, find,
}
use qlerify_live.Errors.{Result, ok, throw, domain_error}
use qlerify_live.Connectors.Rules.{trim}

pub record RoleRow : Type 0 where
  pub id : String
  pub organization_id : String
  pub workflow_id : String
  pub identity_id : String
  pub domain_role : String
  pub granted_by : Option String
  pub granted_at : ℕ

pub record WorkflowRow : Type 0 where
  pub id : String
  pub organization_id : String

pub record OrgMembership : Type 0 where
  pub identity_id : String
  pub organization_id : String
  pub status : String

pub record Identity : Type 0 where
  pub id : String
  pub subject : String

-- The tables that the module only reads.
pub record Directory : Type 0 where
  pub workflows : List WorkflowRow
  pub memberships : List OrgMembership
  pub identities : List Identity

pub record DomainRoleAssignmentView : Type 0 where
  pub id : String
  pub identity_id : String
  pub subject : String
  pub domain_role : String
  pub granted_at : ℕ

pub record RoleInput : Type 0 where
  pub organization_id : String
  pub workflow_id : String
  pub identity_id : String
  pub domain_role : String
  pub granted_by : Option String

-- `orderBy`: the rows, each before the first that it may stand before.
unfoldable insert_row : (RoleRow → RoleRow → Bool) → RoleRow → List RoleRow → List RoleRow
insert_row before r [] = r ∷ []
insert_row before r (x ∷ rows) =
    let rest = insert_row before r rows in if before r x then r ∷ x ∷ rows else x ∷ rest

unfoldable pub order_rows : (RoleRow → RoleRow → Bool) → List RoleRow → List RoleRow
unfolding insert_row
order_rows before [] = []
order_rows before (r ∷ rows) = insert_row before r (order_rows before rows)

-- `domainRole: "asc"`.
abbrev pub by_role : (String → String → Bool) → RoleRow → RoleRow → Bool
by_role before r s = before r.domain_role s.domain_role

-- `[{ domainRole: "asc" }, { grantedAt: "asc" }]`.
abbrev pub by_role_and_time : (String → String → Bool) → RoleRow → RoleRow → Bool
by_role_and_time before r s =
    if r.domain_role == s.domain_role
    then leb r.granted_at s.granted_at
    else before r.domain_role s.domain_role

abbrev subject_or : String → Option Identity → String
subject_or id none = id
subject_or id (some i) = i.subject

unfoldable pub view_of : Directory → RoleRow → DomainRoleAssignmentView
unfolding find
view_of dir r = record {
  id = r.id;
  identity_id = r.identity_id;
  subject = subject_or r.identity_id (find (λ i. i.id == r.identity_id) dir.identities);
  domain_role = r.domain_role;
  granted_at = r.granted_at;
}

unfoldable pub list_domain_roles :
    (String → String → Bool)
    → Directory
    → String
    → String
    → List RoleRow
    → List DomainRoleAssignmentView
unfolding view_of filter order_rows
list_domain_roles before dir organization_id workflow_id rows = map (view_of dir) (
    order_rows (by_role_and_time before)
      (filter (λ r. r.organization_id == organization_id && r.workflow_id == workflow_id) rows))

-- The unique key of the table.
unfoldable pub same_assignment : RoleInput → String → RoleRow → Bool
same_assignment input domain_role r =
    r.organization_id == input.organization_id
    && r.workflow_id == input.workflow_id
    && r.identity_id == input.identity_id
    && r.domain_role == domain_role

abbrev pub created : RoleInput → String → String → ℕ → RoleRow
created input domain_role id now = record {
  id = id;
  organization_id = input.organization_id;
  workflow_id = input.workflow_id;
  identity_id = input.identity_id;
  domain_role = domain_role;
  granted_by = input.granted_by;
  granted_at = now;
}

abbrev pub insert_unless : List RoleRow → RoleRow → Option RoleRow → List RoleRow × String
insert_unless rows r none = (rows ++ r ∷ [], r.id)
insert_unless rows r (some old) = (rows, old.id)

-- `upsert` with an empty update: the rows after it, and the id of the row.
unfoldable pub upsert : RoleInput → String → String → ℕ → List RoleRow → List RoleRow × String
unfolding find same_assignment
upsert input domain_role id now rows =
    insert_unless rows (created input domain_role id now)
      (find (same_assignment input domain_role) rows)

unfoldable pub workflow_known : Directory → RoleInput → Bool
unfolding any
workflow_known dir input =
    any (λ w. w.id == input.workflow_id && w.organization_id == input.organization_id) dir.workflows

unfoldable pub is_member : Directory → RoleInput → Bool
unfolding any
is_member dir input =
    any
      (λ m.
        m.identity_id == input.identity_id
        && m.organization_id == input.organization_id
        && m.status == "active")
      dir.memberships

abbrev pub guarded {ℓ} : {A : Type ℓ} → Bool → Bool → Bool → A → Result A
guarded empty workflow member r =
    if empty
    then throw (domain_error "domainRole is required")
    else if not workflow
    then throw (domain_error "workflow not found in this organization")
    else if not member
    then throw (domain_error "member not found in this organization")
    else ok r

unfoldable pub assign_domain_role :
    Directory → RoleInput → String → ℕ → List RoleRow → Result (List RoleRow × String)
unfolding trim upsert workflow_known is_member
assign_domain_role dir input id now rows =
    let domain_role = trim input.domain_role in
    guarded (domain_role == "") (workflow_known dir input) (is_member dir input)
      (upsert input domain_role id now rows)

abbrev pub is_assignment : String → String → RoleRow → Bool
is_assignment organization_id id r = r.id == id && r.organization_id == organization_id

-- `deleteMany` and its count.
unfoldable pub remove_domain_role : String → String → List RoleRow → Result (List RoleRow)
unfolding any filter
remove_domain_role organization_id id rows =
    if not (any (is_assignment organization_id id) rows)
    then throw (domain_error "assignment not found in this organization")
    else ok (filter (λ r. not (is_assignment organization_id id r)) rows)

abbrev pub is_lane_of : String → String → String → RoleRow → Bool
is_lane_of organization_id workflow_id identity_id r =
    r.organization_id == organization_id
    && r.workflow_id == workflow_id
    && r.identity_id == identity_id

unfoldable pub domain_roles_for :
    (String → String → Bool) → String → String → String → List RoleRow → List String
unfolding filter order_rows
domain_roles_for before organization_id workflow_id identity_id rows =
    map (λ r. r.domain_role)
      (order_rows (by_role before)
        (filter (is_lane_of organization_id workflow_id identity_id) rows))
