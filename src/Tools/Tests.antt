-- ===== src/Tools/Tests.antt =====
-- A tool that counts its calls.
use syndicateclaw.Base.{
  ℕ, suc, String, ◌≡◌, ◌⊎◌, refl, true, false, none, some, [], ◌∷◌, nat_eq, ◌+◌,
}
use syndicateclaw.Json.{Fields, empty, field, text}
use syndicateclaw.Policy.Rules.{allow}
use syndicateclaw.Boundary.Chain.{Hashing}
use syndicateclaw.Boundary.Authority.{Event}
use syndicateclaw.Tools.Registry.{ToolDefinition, Registry, low, gave, get}
use syndicateclaw.Tools.Sandbox.{Libraries, validate_schema, sandbox_violated, response_too_large}
use syndicateclaw.Tools.Executor.{
  ExecutionContext, Services, World, evaluates, returned, check_policy, record_decision,
  boundary_denies, emit_audit, capture_snapshot, denied, raised,
}
use syndicateclaw.Tools.Execute.{admit, run_tool, finish, execute}
use syndicateclaw.Tools.Passed.{Passed, execute-Passed}

abbrev libs : Libraries
libs = record {
  urlparse = λ url. record { scheme = "https"; hostname = "" };
  encoded_length = λ s. 0;
  dumped_length = λ fs. 2;
  str = λ v. "";
}

abbrev counted : Hashing Event
counted = record { H = ℕ; hash_eq = nat_eq; genesis = 0; digest = λ p e n. p + 1 }

abbrev counter : ToolDefinition ℕ
counter = record {
  tool = record {
    name = "count";
    input_schema = record { required = "step" ∷ []; properties = ("step", "string") ∷ [] };
    output_schema = record { required = []; properties = [] };
    risk_level = low;
    side_effects = [];
    timeout_seconds = 30;
    enabled = true;
    sandbox_policy = record {
      allowed_domains = [];
      allowed_protocols = "https" ∷ [];
      max_request_bytes = 10;
      max_response_bytes = 10;
      network_isolation = false;
      filesystem_read = false;
      filesystem_write = false;
      subprocess_allowed = false;
    };
  };
  handler = λ input n. (gave input, suc n);
}

abbrev tools : Registry ℕ
tools = ("count", counter) ∷ []

abbrev services : Services ℕ ℕ ℕ
services = record {
  policy_engine = evaluates (λ name actor context. some allow);
  record_tool_decision = some (λ decision n. (some "d1", suc n));
  runtime_boundary = none;
  capture = none;
  emit = some (λ execution n. suc n);
}

abbrev world : World counted ℕ ℕ ℕ ℕ
world = record {
  outside = 0;
  ledger = 0;
  boundary = record { upstream = 0; audit = record { records = []; fail = false } };
  records = 0;
}

abbrev input : Fields
input = field "step" (text "a") empty

abbrev context : ExecutionContext
context = record { run_id = "run"; node_id = "node"; config = empty; authority = none }

execute_counts :
    execute libs counted services tools "count" input context "now" world
    ≡ (returned input, record world { outside = 1; ledger = 1; records = 1 })
unfolding execute admit get validate_schema sandbox_violated check_policy record_decision
    boundary_denies run_tool finish response_too_large emit_audit capture_snapshot
execute_counts = refl

no_ledger :
    (execute libs counted
      (record services { record_tool_decision = none })
      tools
      "count"
      input
      context
      "now"
      world)
    ≡ (raised denied, world)
unfolding execute admit get validate_schema sandbox_violated check_policy record_decision
no_ledger = refl

execute-Passed_example :
    ((execute libs counted services tools "count" input context "now" world).1.outside ≡ 0)
    ⊎ ((d : ToolDefinition ℕ) × (id : String) × Passed libs counted services tools "count" input
          context "now" world d id
        × ((execute libs counted services tools "count" input context "now" world).1.outside
            ≡ (d.handler input 0).1))
execute-Passed_example =
    execute-Passed libs counted services tools "count" input context "now" world
