-- ===== src/Workflow/Resume.antt =====
-- `resume_after_approval` of src/syndicateclaw/orchestrator/engine.py, with a database: the
-- transaction that consumes the approval, then the execution of the run. The rows that it locks are
-- read and written in one step. The update times of the rows are left out.
use syndicateclaw.Base.{
  Bool, true, false, not, Option, none, some, String, ◌==◌, string_eq, if◌then◌else◌, Result, ok,
  err, value_error,
}
use syndicateclaw.Json.{Value, null, text, dict, Fields, empty, field, put_field, get_value, truthy}
use syndicateclaw.Approval.Row.{Status, approved, status_eq}
use syndicateclaw.Workflow.Node.{RunStatus, running, waiting_approval}

-- What it reads and writes of a row of `approval_requests`.
pub record Approval : Type 0 where
  pub run_id : String
  pub status : Status
  pub tool_name : String
  pub context : Fields

pub record RunRow : Type 0 where
  pub id : String
  pub status : RunStatus
  pub state : Fields

pub record Tables : Type 0 where
  pub approvals : String → Option Approval
  pub runs : String → Option RunRow

abbrev pub is_waiting : RunStatus → Bool
is_waiting waiting_approval = true
is_waiting _ = false

abbrev pub assign {ℓ} : {A : Type ℓ} → String → A → (String → Option A) → String → Option A
assign key a rows k = if k == key then some a else rows k

-- `a or b`
abbrev or_value : Value → Value → Value
or_value a b = if truthy a then a else b

-- `waiting.get("node_id")` if `waiting` is a dict
abbrev waiting_node : Value → Value
waiting_node (dict waiting) = get_value "node_id" waiting
waiting_node _ = null

module _ (str : Value → String) where
  -- `_resume_node_from_state`; `none` is its ValueError
  unfoldable pub resume_node : Fields → Fields → Option String
  resume_node state context =
      let node =
        or_value (or_value (get_value "resume_node_id" context) (get_value "_resume_from" state))
          (waiting_node (get_value "_waiting_approval" state)) in
      if truthy node then some (str node) else none

  abbrev pub resumed_state : String → String → Approval → String → Fields → Fields
  resumed_state now approval_id approval node state = put_field "_resume_from" (text node) (
      put_field "_approved_approval_id" (text approval_id) (
        put_field "_approval_resume"
          (dict (
            field "approval_id" (text approval_id) (
              field "node_id" (text node) (
                field "tool_name" (text approval.tool_name)
                  (field "resumed_at" (text now) empty)))))
          state))

  abbrev pub consumed_context : String → String → String → Fields → Fields
  consumed_context now run_id node context =
      put_field "resume_node_id" (text node)
        (put_field "consumed_for_run_id" (text run_id) (put_field "consumed_at" (text now) context))

  -- The checks, and what is written when they pass.
  unfoldable pub consume_row :
      String → String → String → Approval → RunRow → Tables → Result RunRow × Tables
  unfolding resume_node
  consume_row now run_id approval_id approval run d =
      if not (is_waiting run.status)
      then (err value_error, d)
      else elim (resume_node run.state approval.context) [
        | none ↦ (err value_error, d)
        | some node ↦
            let run' = record run {
              status = running;
              state = resumed_state now approval_id approval node run.state;
            } in
            (
              ok run',
              record {
                approvals =
                    assign approval_id
                      (record approval {
                        context = consumed_context now run_id node approval.context;
                      })
                      d.approvals;
                runs = assign run_id run' d.runs;
              },
            )
      ]

  unfoldable pub consume : String → String → String → Tables → Result RunRow × Tables
  unfolding consume_row
  consume now run_id approval_id d = elim (d.approvals approval_id) [
    | none ↦ (err value_error, d)
    | some approval ↦
        if not (approval.run_id == run_id)
        then (err value_error, d)
        else if not (approval.status == approved)
        then (err value_error, d)
        else if truthy (get_value "consumed_at" approval.context)
        then (err value_error, d)
        else elim (d.runs run_id) [
          | none ↦ (err value_error, d)
          | some run ↦ consume_row now run_id approval_id approval run d
        ]
  ]

  -- The engine's own state `E`, and `execute`, which may write runs and approvals: a node that waits
  -- for an approval writes its row, one that is stored included (`_persist_approval_boundary`).
  -- The answer is the run that goes on; what its execution returns or raises is part of `E`.
  module _ {E : Type 0} (execute : RunRow → Tables × E → Tables × E) where
    unfoldable pub resume_after_approval :
        String → String → String → Tables × E → Result RunRow × (Tables × E)
    resume_after_approval now run_id approval_id (d, e) =
        let (answer, d') = consume now run_id approval_id d in
        elim answer [ err x ↦ (err x, (d', e)) | ok run ↦ (ok run, execute run (d', e)) ]
