-- ===== src/Tools/Registry.antt =====
-- `ToolRegistry` of src/syndicateclaw/tools/registry.py, and what it keeps of `Tool` and
-- `ToolSandboxPolicy` of src/syndicateclaw/models.py. `O` is what the tools act on.
use syndicateclaw.Base.{
  ℕ, Bool, true, false, Option, none, some, List, [], ◌∷◌, String, ◌==◌, string_eq, length, map,
  keep, if◌then◌else◌, is_some,
}
use syndicateclaw.Json.{Fields}

pub data ToolRiskLevel : Type 0 where
  low medium high critical : ToolRiskLevel

pub record ToolSandboxPolicy : Type 0 where
  pub allowed_domains : List String
  pub allowed_protocols : List String
  pub max_request_bytes : ℕ
  pub max_response_bytes : ℕ
  pub network_isolation : Bool
  pub filesystem_read : Bool
  pub filesystem_write : Bool
  pub subprocess_allowed : Bool

-- The keys of a JSON schema that are read: the required fields, and the type of each property ("" if
-- it has none).
pub record Schema : Type 0 where
  pub required : List String
  pub properties : List (String × String)

pub record Tool : Type 0 where
  pub name : String
  pub input_schema : Schema
  pub output_schema : Schema
  pub risk_level : ToolRiskLevel
  pub side_effects : List String
  pub timeout_seconds : ℕ
  pub enabled : Bool
  pub sandbox_policy : ToolSandboxPolicy

-- How a handler ends under `asyncio.wait_for`.
pub data Handled : Type 0 where
  gave : Fields → Handled
  timed_out : Handled
  failed : String → Handled

pub record ToolDefinition (O : Type 0) : Type 0 where
  pub tool : Tool
  pub handler : Fields → O → Handled × O

abbrev risk_eq : ToolRiskLevel → ToolRiskLevel → Bool
risk_eq low low = true
risk_eq medium medium = true
risk_eq high high = true
risk_eq critical critical = true
risk_eq _ _ = false

-- The dictionary keeps the place of a name that is registered again.
abbrev pub Registry : Type 0 → Type 0
Registry O = List (String × ToolDefinition O)

module _ {O : Type 0} where
  unfoldable pub get : String → Registry O → Option (ToolDefinition O)
  get name [] = none
  get name ((n, d) ∷ tools) = let rest = get name tools in if n == name then some d else rest

  unfoldable pub set_tool : String → ToolDefinition O → Registry O → Registry O
  set_tool name d [] = (name, d) ∷ []
  set_tool name d ((n, e) ∷ tools) =
      let rest = set_tool name d tools in if n == name then (n, d) ∷ tools else (n, e) ∷ rest

  unfoldable pub register_tool : Tool → (Fields → O → Handled × O) → Registry O → Registry O
  register_tool tool handler tools =
      set_tool tool.name (record { tool = tool; handler = handler }) tools

  unfoldable pub list_tools : Option ToolRiskLevel → Registry O → List Tool
  list_tools none tools = map (λ e. e.1.tool) tools
  list_tools (some level) tools =
      map (λ e. e.1.tool) (keep (λ e. risk_eq e.1.tool.risk_level level) tools)

  unfoldable pub unregister : String → Registry O → Registry O
  unregister name [] = []
  unregister name ((n, d) ∷ tools) =
      let rest = unregister name tools in if n == name then tools else (n, d) ∷ rest

  unfoldable pub holds : String → Registry O → Bool
  unfolding get
  holds name tools = is_some (get name tools)

  unfoldable pub size_of : Registry O → ℕ
  size_of tools = length tools
