-- ===== src/Mcp/Registry.antt =====
-- mcp-server/internal/registry/registry.go, with the types of mcp-server/internal/types and the
-- interface of mcp-server/internal/plugins. The map of plugins is a list, in the order in which one
-- loop over the map meets them; arguments and outputs are of types that the section takes.
pub mod Lookup
mod Tests
use x_scope_hub_svc_plus.Prelude.{
  Bool, true, false, ◌||◌, Option, none, some, List, [], ◌∷◌, ◌++◌, String, str_eq, map,
  if◌then◌else◌,
}

pub record ResourceDescriptor : Type 0 where
  pub name : String
  pub title : String
  pub description : String

pub record ResourcePayload (Data : Type 0) : Type 0 where
  pub name : String
  pub description : String
  pub body : Data

pub record ToolDescriptor : Type 0 where
  pub name : String
  pub description : String
  pub input_schema : String

-- What the registry asks of a plugin; a tool answers an outcome of its own.
pub record Plugin (Data Args Outcome : Type 0) : Type 0 where
  pub id : String
  pub resources : List (ResourcePayload Data)
  pub tools : List ToolDescriptor
  pub execute_tool : String → Args → Outcome

unfoldable pub has_tool : String → List ToolDescriptor → Bool
has_tool name [] = false
has_tool name (td ∷ tds) = str_eq td.name name || has_tool name tds

module _ {Data : Type 0} where
  abbrev pub descriptor_of : ResourcePayload Data → ResourceDescriptor
  descriptor_of res = record { name = res.name; title = res.name; description = res.description }

  unfoldable pub find_resource :
      String → List (ResourcePayload Data) → Option (ResourcePayload Data)
  find_resource name [] = none
  find_resource name (res ∷ more) =
      if str_eq res.name name then some res else find_resource name more

module _ {Data Args Outcome : Type 0} where
  unfoldable pub is_registered : String → List (Plugin Data Args Outcome) → Bool
  is_registered id [] = false
  is_registered id (p ∷ ps) = str_eq p.id id || is_registered id ps

  -- none is the error of a plugin that is registered already
  unfoldable pub register_plugin :
      Plugin Data Args Outcome
      → List (Plugin Data Args Outcome)
      → Option (List (Plugin Data Args Outcome))
  unfolding is_registered
  register_plugin p r = if is_registered p.id r then none else some (p ∷ r)

  unfoldable pub list_resources : List (Plugin Data Args Outcome) → List ResourceDescriptor
  list_resources [] = []
  list_resources (p ∷ ps) = map descriptor_of p.resources ++ list_resources ps

  -- none is the error of a resource that is not found
  unfoldable pub resource : String → List (Plugin Data Args Outcome) → Option (ResourcePayload Data)
  unfolding find_resource
  resource name [] = none
  resource name (p ∷ ps) =
      let rest = resource name ps in
      elim (find_resource name p.resources) [ some res ↦ some res | none ↦ rest ]

  unfoldable pub list_tools : List (Plugin Data Args Outcome) → List ToolDescriptor
  list_tools [] = []
  list_tools (p ∷ ps) = p.tools ++ list_tools ps

  -- none is the error of a tool that is not found
  unfoldable pub invoke_tool : String → Args → List (Plugin Data Args Outcome) → Option Outcome
  unfolding has_tool
  invoke_tool name arguments [] = none
  invoke_tool name arguments (p ∷ ps) =
      let rest = invoke_tool name arguments ps in
      if has_tool name p.tools then some (p.execute_tool name arguments) else rest
