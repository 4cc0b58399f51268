-- ===== src/Connectors.antt =====
-- src/packs: the sidecars of the connectors. Connectors/Ownership.antt decides which tenant may address
-- one (ownership.ts); Connectors/Rules.antt and Connectors/Loading.antt keep its trigger rules
-- (connector/rules.ts) and Connectors/Journal.antt its notes (connector/journal.ts).
pub mod Ownership
pub mod Journal
pub mod Files
pub mod Rules
pub mod Loading
pub mod Health
pub mod Saving
pub mod Passes
pub mod Settled
pub mod Runs
mod Tests
use qlerify_live.Prelude.{String, Bool, Option, List}

pub record TriggerRule : Type 0 where
  pub event_key : String
  pub event_ref : String
  pub condition : String
  pub gwt_hash : String
  pub file : String
  pub code_hash : String
  pub built_at : String
  pub author : String
  pub disabled : Bool
  pub disabled_reason : Option String

pub record AdapterConfig : Type 0 where
  pub id : String
  pub target_entity : String
  pub target_kind : Option String
  pub workflow_id : Option String
  pub organization_id : Option String
  pub trigger_rules : List TriggerRule
