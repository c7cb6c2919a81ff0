-- ===== src/Tools/Sandbox.antt =====
-- The checks of an input and of an output: `_validate_schema`, `enforce_sandbox` and
-- `enforce_response_limits` of src/syndicateclaw/tools/executor.py. `Libraries` holds what they call
-- of Python's: `urlparse`, the length of `encode()`, that of `json.dumps`, and `str`.
use syndicateclaw.Base.{
  ℕ, Bool, true, false, not, ◌&&◌, ◌||◌, none, some, [], ◌∷◌, String, ◌==◌, string_eq, ltb,
  contains, all, if◌then◌else◌, is_some,
}
use syndicateclaw.Json.{
  truthy, get_value, Value, boolean, number, text, list, dict, Fields, find_field,
}
use syndicateclaw.Tools.Registry.{Schema, ToolSandboxPolicy}

-- `ParseResult`, with "" for the host that is not there
pub record Url : Type 0 where
  pub scheme : String
  pub hostname : String

pub record Libraries : Type 0 where
  pub urlparse : String → Url
  pub encoded_length : String → ℕ
  pub dumped_length : Fields → ℕ
  pub str : Value → String

-- `isinstance(v, type_map[kind])`; true for a kind that is not in the map, and a boolean is an
-- integer
unfoldable pub is_of_type : String → Value → Bool
is_of_type kind v =
    if kind == "string"
    then elim v [ text s ↦ true | _ ↦ false ]
    else if kind == "integer"
    then elim v [ number n ↦ true | boolean b ↦ true | _ ↦ false ]
    else if kind == "number"
    then elim v [ number n ↦ true | boolean b ↦ true | _ ↦ false ]
    else if kind == "boolean"
    then elim v [ boolean b ↦ true | _ ↦ false ]
    else if kind == "array"
    then elim v [ list vs ↦ true | _ ↦ false ]
    else if kind == "object"
    then elim v [ dict fs ↦ true | _ ↦ false ]
    else true

-- `_validate_schema`, false where it raises ValueError
unfoldable pub validate_schema : Fields → Schema → Bool
unfolding is_of_type
validate_schema input schema =
    all (λ key. is_some (find_field key input)) schema.required
    && all (λ (key, kind). elim (find_field key input) [ none ↦ true | some v ↦ is_of_type kind v ])
        schema.properties

module _ (libs : Libraries) where
  abbrev url_refused : String → ToolSandboxPolicy → Bool
  url_refused url policy =
      let parsed = libs.urlparse url in
      not (parsed.scheme == "") && not (contains policy.allowed_protocols parsed.scheme)
      || not (elim policy.allowed_domains [ [] ↦ true | _ ∷ _ ↦ false ])
        && not (parsed.hostname == "")
        && not (contains policy.allowed_domains parsed.hostname)

  -- The checks in their order; true where one raises SandboxViolationError.
  unfoldable pub sandbox_violated : Fields → ToolSandboxPolicy → Bool
  sandbox_violated input policy =
      policy.network_isolation && truthy (get_value "url" input)
      || elim (get_value "url" input) [
        | text url ↦ not (url == "") && url_refused url policy
        | _ ↦ false
      ]
      || elim (get_value "body" input) [
        | text body ↦ not (body == "") && ltb policy.max_request_bytes (libs.encoded_length body)
        | _ ↦ false
      ]
      || not policy.subprocess_allowed && truthy (get_value "subprocess" input)
      || not policy.filesystem_read && truthy (get_value "file_path" input)

  unfoldable pub response_too_large : Fields → ToolSandboxPolicy → Bool
  response_too_large output policy = ltb policy.max_response_bytes (libs.dumped_length output)
