-- ===== src/Mcp/Registry/Tests.antt =====
-- A registry of one plugin, and the theorems at it.
use x_scope_hub_svc_plus.Prelude.{ℕ, ◌≡◌, refl, none, some, [], ◌∷◌}
use x_scope_hub_svc_plus.Mcp.Registry.{Plugin, is_registered, register_plugin}

abbrev logs : Plugin ℕ ℕ ℕ
logs = record {
  id = "logs";
  resources = record { name = "tail"; description = ""; body = 3 } ∷ [];
  tools = record { name = "search"; description = ""; input_schema = "{}" } ∷ [];
  execute_tool = λ name n. n;
}

registers : register_plugin logs [] ≡ some (logs ∷ [])
unfolding register_plugin is_registered
registers = refl

registers_once : register_plugin logs (logs ∷ []) ≡ none
unfolding register_plugin is_registered
registers_once = refl
