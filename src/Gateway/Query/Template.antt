-- ===== src/Gateway/Query/Template.antt =====
-- Named queries: resolveTemplate of observe-gateway/internal/server/server.go and
-- ResolveQueryTemplate of observe-gateway/internal/config/config.go.
use x_scope_hub_svc_plus.Prelude.{Option, none, some, List, [], ◌∷◌, ◌++◌, is_empty, if◌then◌else◌}
use x_scope_hub_svc_plus.Prelude.Text.{Text, codes, text_eq, trim_space, split, join}
use x_scope_hub_svc_plus.Gateway.Query.{Request}

pub record QueryTemplate : Type 0 where
  pub lang : Text
  pub query : Text
  pub step : Text

-- strings.ReplaceAll
unfoldable pub replace_all : Text → Text → Text → Text
unfolding split join
replace_all old new s = join new (split old s)

-- The loop over the variables.
unfoldable pub apply_template_variables : Text → List (Text × Text) → Text
unfolding replace_all trim_space
apply_template_variables out [] = out
apply_template_variables out ((key, value) ∷ variables) =
    apply_template_variables (replace_all (codes "{{" ++ trim_space key ++ codes "}}") value out)
      variables

abbrev pub Templates : Type 0
Templates = List (Text × QueryTemplate)

unfoldable pub find_template : Text → Templates → Option QueryTemplate
find_template name [] = none
find_template name ((k, t) ∷ ts) = if text_eq k name then some t else find_template name ts

render : QueryTemplate → List (Text × Text) → QueryTemplate
unfolding apply_template_variables trim_space
render t variables = if is_empty variables then t else record {
  lang = trim_space t.lang;
  query = apply_template_variables t.query variables;
  step = apply_template_variables t.step variables;
}

unfoldable pub resolve_query_template : Templates → Text → List (Text × Text) → Option QueryTemplate
unfolding find_template render
resolve_query_template ts name variables = elim (find_template name ts) [
  | none ↦ none
  | some t ↦ some (render t variables)
]

-- if strings.TrimSpace(own) == "" { own = rendered }
unfoldable pub own_or : Text → Text → Text
unfolding trim_space
own_or own rendered = if is_empty (trim_space own) then rendered else own

unfoldable pub resolve_template : Templates → Request → Request
unfolding trim_space resolve_query_template own_or
resolve_template ts req =
    let name = trim_space req.template in
    if is_empty name then req else elim (resolve_query_template ts name req.variables) [
      | none ↦ req
      | some t ↦ record req {
        lang = own_or req.lang t.lang;
        query = own_or req.query t.query;
        step = own_or req.step t.step;
      }
    ]
