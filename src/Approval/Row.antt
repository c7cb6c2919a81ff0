-- ===== src/Approval/Row.antt =====
-- A stored approval request (`ApprovalRequest` of src/syndicateclaw/db/models.py) and its status.
use syndicateclaw.Base.{
  ℕ, String, ◌≡◌, Bool, true, false, Option, none, some, List, [], ◌==◌, string_eq, leb, HasEq,
  arith, ◌↔◌,
}
use syndicateclaw.Approval.Authority.{RiskLevel}

pub data Status : Type 0 where
  pending approved rejected expired : Status

abbrev pub status_beq : Status → Status → Bool
status_beq pending pending = true
status_beq approved approved = true
status_beq rejected rejected = true
status_beq expired expired = true
status_beq _ _ = false

pub status_beq_iff : (a b : Status) → (status_beq a b ≡ true) ↔ (a ≡ b)
status_beq_iff a b = ground arith

instance abbrev pub status_eq : HasEq Status
status_eq = record { eqb = status_beq; eqb_iff = status_beq_iff }

-- Times are microseconds. `assigned_to` is a JSON column: `none` stands for a value that is no list.
pub record ApprovalRow : Type 0 where
  pub id : String
  pub run_id : String
  pub node_execution_id : String
  pub tool_name : String
  pub action_description : String
  pub risk_level : RiskLevel
  pub status : Status
  pub requested_by : Option String
  pub assigned_to : Option (List String)
  pub decided_by : Option String
  pub decided_at : Option ℕ
  pub decision_reason : Option String
  pub expires_at : Option ℕ
  pub updated_at : ℕ

-- `[str(x) for x in at_raw] if isinstance(at_raw, list) else []`
abbrev pub assignees : Option (List String) → List String
assignees (some as') = as'
assignees none = []

-- `approver == row.requested_by`
abbrev pub is_requester : Option String → String → Bool
is_requester (some r) a = a == r
is_requester none a = false

-- `row.expires_at and row.expires_at <= now`, also the query's `expires_at <= now`
abbrev pub past_deadline : Option ℕ → ℕ → Bool
past_deadline (some t) now = leb t now
past_deadline none now = false
