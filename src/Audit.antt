-- ===== src/Audit.antt =====
-- platform/audit/index.ts: the hash-chained audit log of an organisation. The table is a list of
-- rows in the order of their creation; `sha256` (node:crypto), the ids and the clock are arguments;
-- `occurredAt` is the text that `toISOString` gives. `serialize` runs the appends to one stream one
-- after the other, so `record_audit` is one step.
pub mod Chain
pub mod Append
pub mod Tamper
mod Tests
use qlerify_live.Prelude.Json.{decimal, json_text, json_or_null}
use qlerify_live.Prelude.{
  ℕ, zero, suc, String, ◌+◌, Bool, true, false, Option, none, some, List, [], ◌∷◌, ◌++◌, ◌&&◌, ◌||◌,
  ◌==◌, not, string_eq, option_eq, nat_eq, leb, if◌then◌else◌, filter, length, template,
}

pub record AuditInput : Type 0 where
  pub organization_id : String
  pub actor_principal_id : Option String
  pub action : String
  pub target_ref : Option String
  pub decision : Option String
  pub reason : Option String
  pub actor_kind : Option String

pub record ChainRow : Type 0 where
  pub organization_id : String
  pub stream_id : String
  pub seq : ℕ
  pub prev_hash : Option String
  pub actor_principal_id : Option String
  pub action : String
  pub target_ref : Option String
  pub decision : Option String
  pub reason : Option String
  pub occurred_at : String

pub record AuditEvent : Type 0 where
  pub id : String
  pub row : ChainRow
  pub this_hash : String
  pub actor_kind : Option String

pub record ChainVerification : Type 0 where
  pub ok : Bool
  pub length : ℕ
  pub broken_at_seq : Option ℕ

-- The text that is hashed into the chain.
unfoldable pub material : ChainRow → String
unfolding template json_text json_or_null decimal
material row = template (
    "{\"organizationId\":"
    ∷ json_text row.organization_id
    ∷ ",\"streamId\":"
    ∷ json_text row.stream_id
    ∷ ",\"seq\":"
    ∷ decimal row.seq
    ∷ ",\"prevHash\":"
    ∷ json_or_null row.prev_hash
    ∷ ",\"actorPrincipalId\":"
    ∷ json_or_null row.actor_principal_id
    ∷ ",\"action\":"
    ∷ json_text row.action
    ∷ ",\"targetRef\":"
    ∷ json_or_null row.target_ref
    ∷ ",\"decision\":"
    ∷ json_or_null row.decision
    ∷ ",\"reason\":"
    ∷ json_or_null row.reason
    ∷ ",\"occurredAt\":"
    ∷ json_text row.occurred_at
    ∷ "}"
    ∷ [])

abbrev pub or_empty : Option String → String
or_empty none = ""
or_empty (some s) = s

-- What is hashed of a row.
unfoldable pub chain_text : ChainRow → String
unfolding material template
chain_text row = template (or_empty row.prev_hash ∷ "\n" ∷ material row ∷ [])

-- `orderBy: { seq: "asc" }`.
unfoldable pub insert_by_seq : AuditEvent → List AuditEvent → List AuditEvent
insert_by_seq e [] = e ∷ []
insert_by_seq e (f ∷ events) =
    if leb e.row.seq f.row.seq then e ∷ f ∷ events else f ∷ insert_by_seq e events

unfoldable pub sort_by_seq : List AuditEvent → List AuditEvent
unfolding insert_by_seq
sort_by_seq [] = []
sort_by_seq (e ∷ events) = insert_by_seq e (sort_by_seq events)

abbrev pub in_stream : String → AuditEvent → Bool
in_stream organization_id e =
    e.row.organization_id == organization_id && e.row.stream_id == organization_id

unfoldable pub stream_of : String → List AuditEvent → List AuditEvent
unfolding sort_by_seq filter
stream_of organization_id events = sort_by_seq (filter (in_stream organization_id) events)

unfoldable pub last_of : List AuditEvent → Option AuditEvent
last_of [] = none
last_of (e ∷ []) = some e
last_of (e ∷ f ∷ events) = last_of (f ∷ events)

-- `(last?.seq ?? -1) + 1`
abbrev pub next_seq : Option AuditEvent → ℕ
next_seq none = 0
next_seq (some e) = e.row.seq + 1

abbrev pub last_hash : Option AuditEvent → Option String
last_hash none = none
last_hash (some e) = some e.this_hash

module _ (sha256 : String → String) where
  unfoldable pub hash_row : ChainRow → String
  unfolding chain_text
  hash_row row = sha256 (chain_text row)

  abbrev pub new_row : AuditInput → Option AuditEvent → String → ChainRow
  new_row input last now = record {
    organization_id = input.organization_id;
    stream_id = input.organization_id;
    seq = next_seq last;
    prev_hash = last_hash last;
    actor_principal_id = input.actor_principal_id;
    action = input.action;
    target_ref = input.target_ref;
    decision = input.decision;
    reason = input.reason;
    occurred_at = now;
  }

  abbrev pub new_event : AuditInput → Option AuditEvent → (id now : String) → AuditEvent
  new_event input last id now = record {
    id = id;
    row = new_row input last now;
    this_hash = hash_row (new_row input last now);
    actor_kind = input.actor_kind;
  }

  -- Appends one event; returns the table and the event that was written.
  unfoldable pub record_audit :
      AuditInput → (id now : String) → List AuditEvent → List AuditEvent × AuditEvent
  unfolding hash_row stream_of last_of
  record_audit input id now events =
      let event = new_event input (last_of (stream_of input.organization_id events)) id now in
      (events ++ event ∷ [], event)

  abbrev broken : ℕ → AuditEvent → ChainVerification
  broken n e = record { ok = false; length = n; broken_at_seq = some e.row.seq }

  -- The loop of `verifyAuditChain` from index `i`, with the hash before it.
  unfoldable pub verify_from : ℕ → ℕ → Option String → List AuditEvent → ChainVerification
  unfolding hash_row
  verify_from n i prev_hash [] = record { ok = true; length = n; broken_at_seq = none }
  verify_from n i prev_hash (r ∷ rows) =
      let rest = verify_from n (suc i) (some r.this_hash) rows in
      if not (r.row.seq == i)
      then broken n r
      else if not (r.row.prev_hash == prev_hash) || not (hash_row r.row == r.this_hash)
      then broken n r
      else rest

  unfoldable pub verify_audit_chain : String → List AuditEvent → ChainVerification
  unfolding verify_from stream_of
  verify_audit_chain organization_id events =
      let rows = stream_of organization_id events in verify_from (length rows) 0 none rows
