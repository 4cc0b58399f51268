-- ===== src/Pdp/Types.antt =====
-- platform/types.ts, and the rows of the tables that the policy decision point reads: the columns
-- that it selects or filters by. Ids, role keys and permissions of rows are texts, as in the tables.
use qlerify_live.Prelude.{String, ◌≡◌, ◌↔◌, Bool, true, false, Option, List, StrictEq, arith}

pub data PrincipalType : Type 0 where
  identity group service_account : PrincipalType

pub record Principal : Type 0 where
  pub id : String
  pub type : PrincipalType

pub data Permission : Type 0 where
  view edit administer deploy : Permission

pub data ScopeType : Type 0 where
  organization environment workspace workflow resource : ScopeType

unfoldable pub type_name : PrincipalType → String
type_name identity = "identity"
type_name group = "group"
type_name service_account = "service_account"

abbrev pub perm_beq : Permission → Permission → Bool
perm_beq view view = true
perm_beq edit edit = true
perm_beq administer administer = true
perm_beq deploy deploy = true
perm_beq _ _ = false

pub perm_beq_iff : (a b : Permission) → (perm_beq a b ≡ true) ↔ (a ≡ b)
perm_beq_iff a b = ground arith

instance abbrev pub permission_eq : StrictEq Permission
permission_eq = record { test = perm_beq; decides = perm_beq_iff }

abbrev pub scope_beq : ScopeType → ScopeType → Bool
scope_beq organization organization = true
scope_beq environment environment = true
scope_beq workspace workspace = true
scope_beq workflow workflow = true
scope_beq resource resource = true
scope_beq _ _ = false

pub scope_beq_iff : (a b : ScopeType) → (scope_beq a b ≡ true) ↔ (a ≡ b)
scope_beq_iff a b = ground arith

instance abbrev pub scope_eq : StrictEq ScopeType
scope_eq = record { test = scope_beq; decides = scope_beq_iff }

-- A request that is bound to an organisation.
pub record TenantContext : Type 0 where
  pub principal : Principal
  pub identity_id : Option String
  pub subject : Option String
  pub organization_id : String
  pub workflow_id : Option String
  pub is_platform_admin : Bool
  pub acting_as_platform_admin : Bool

pub record AuthzResource : Type 0 where
  pub id : String
  pub organization_id : String
  pub scope_type : Option ScopeType
  pub workflow_id : Option String
  pub workspace_id : Option String
  pub environment_id : Option String

pub record GroupMembership : Type 0 where
  pub organization_id : String
  pub group_id : String
  pub member_identity_id : Option String
  pub member_group_id : Option String

pub record MarkingGrant : Type 0 where
  pub organization_id : String
  pub marking_id : String
  pub principal_id : String
  pub principal_type : String

pub record ResourceMarking : Type 0 where
  pub organization_id : String
  pub resource_id : String
  pub marking_id : String

pub record RoleAssignment : Type 0 where
  pub organization_id : String
  pub scope_type : ScopeType
  pub scope_id : String
  pub principal_type : String
  pub principal_id : String
  pub role_key : String

pub record SharingGrant : Type 0 where
  pub organization_id : String
  pub resource_id : String
  pub principal_type : String
  pub principal_id : String
  pub permission : String

pub record Tables : Type 0 where
  pub group_memberships : List GroupMembership
  pub marking_grants : List MarkingGrant
  pub resource_markings : List ResourceMarking
  pub role_assignments : List RoleAssignment
  pub sharing_grants : List SharingGrant
