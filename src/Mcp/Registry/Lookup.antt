-- ===== src/Mcp/Registry/Lookup.antt =====
-- What is listed can be asked for, and nothing else (mcp-server/internal/registry/registry.go).
use mathlib.Core.List.{Memᴰ}
use x_scope_hub_svc_plus.Prelude.{
  ◌≡◌, refl, ◌⊎◌, inl, inr, Bool, true, false, ◌||◌, Option, none, some, List, [], ◌∷◌, ◌++◌,
  String, str_eq, map, arith, Bool-cases,
}
use x_scope_hub_svc_plus.Mcp.Registry.{
  ResourceDescriptor, ResourcePayload, ToolDescriptor, Plugin, descriptor_of, list_resources,
  find_resource, resource, list_tools, has_tool, invoke_tool,
}

abbrev pub is_some : {A : Type 0} → Option A → Bool
is_some none = false
is_some (some a) = true

unfoldable pub is_listed : String → List ResourceDescriptor → Bool
is_listed name [] = false
is_listed name (d ∷ ds) = str_eq d.name name || is_listed name ds

is_listed-append :
    (name : String) (xs ys : List ResourceDescriptor)
    → is_listed name (xs ++ ys) ≡ (is_listed name xs || is_listed name ys)
unfolding is_listed
is_listed-append name [] ys = refl
is_listed-append name (x ∷ xs) ys = ground (arith, is_listed-append name xs ys)

has_tool-append :
    (name : String) (xs ys : List ToolDescriptor)
    → has_tool name (xs ++ ys) ≡ (has_tool name xs || has_tool name ys)
unfolding has_tool
has_tool-append name [] ys = refl
has_tool-append name (x ∷ xs) ys = ground (arith, has_tool-append name xs ys)

find_resource-listed :
    {Data : Type 0} (name : String) (rs : List (ResourcePayload Data))
    → is_some (find_resource name rs) ≡ is_listed name (map descriptor_of rs)
unfolding find_resource is_listed
find_resource-listed name [] = refl
find_resource-listed name (r ∷ rs) = ground (arith, find_resource-listed name rs)

module _ {Data Args Outcome : Type 0} where
  -- A resource is found by its name just where a plugin lists a resource of that name.
  pub resource-listed :
      (name : String) (r : List (Plugin Data Args Outcome))
      → is_some (resource name r) ≡ is_listed name (list_resources r)
  unfolding resource list_resources
  resource-listed name [] = unfold is_listed in refl
  resource-listed name (p ∷ ps) = ground (
    arith,
    find_resource-listed name p.resources,
    resource-listed name ps,
    is_listed-append name (map descriptor_of p.resources) (list_resources ps),
  )

  -- A tool is invoked just where a plugin lists a tool of that name, and then it is a plugin of the
  -- registry with such a tool that executes it, under that name and with those arguments.
  pub invoke_tool-listed :
      (name : String) (args : Args) (r : List (Plugin Data Args Outcome))
      → ((invoke_tool name args r ≡ none) × (has_tool name (list_tools r) ≡ false))
        ⊎ ((p : Plugin Data Args Outcome) × Memᴰ p r
            × (has_tool name p.tools ≡ true)
            × (has_tool name (list_tools r) ≡ true)
            × (invoke_tool name args r ≡ some (p.execute_tool name args)))
  unfolding invoke_tool list_tools
  invoke_tool-listed name args [] = inl (refl, unfold has_tool in refl)
  invoke_tool-listed name args (p ∷ ps) =
      let both = has_tool-append name p.tools (list_tools ps) in
      elim (Bool-cases (has_tool name p.tools)) [
        | inl here ↦ inr (p, Memᴰ.head refl, here, ground arith, ground arith)
        | inr elsewhere ↦ elim (invoke_tool-listed name args ps) [
          | inl (missing, unlisted) ↦ inl (ground arith, ground arith)
          | inr (q, m, has, listed, ran) ↦ inr (q, Memᴰ.tail m, has, ground arith, ground arith)
        ]
      ]
