-- ===== src/Prelude/Headers.antt =====
-- net/http's Header as a list of names and values, with the canonical form of a name as an argument.
use mathlib.Core.List.{List, [], ◌∷◌}
use x_scope_hub_svc_plus.Prelude.Tests.{if◌then◌else◌}
use x_scope_hub_svc_plus.Prelude.Lists.{is_empty}
use x_scope_hub_svc_plus.Prelude.Text.{Text, text_eq}

unfoldable pub set_canonical : Text → Text → List (Text × Text) → List (Text × Text)
unfolding text_eq
set_canonical key value [] = (key, value) ∷ []
set_canonical key value ((k, v) ∷ headers) =
    if text_eq k key then (key, value) ∷ headers else (k, v) ∷ set_canonical key value headers

module _ (canonical : Text → Text) where
  -- Header.Set
  unfoldable pub set_header : Text → Text → List (Text × Text) → List (Text × Text)
  unfolding set_canonical
  set_header key value headers = set_canonical (canonical key) value headers

  -- if value != "" { req.Header.Set(key, value) }
  unfoldable pub set_given : Text → Text → List (Text × Text) → List (Text × Text)
  unfolding set_header
  set_given key value headers = if is_empty value then headers else set_header key value headers
