-- ===== src/Gateway/Translate/Traceql.antt =====
-- translateTraceQL of observe-gateway/internal/backend/client.go.
use x_scope_hub_svc_plus.Prelude.{
  ◌+◌, Bool, true, false, not, Option, none, some, List, [], ◌∷◌, ◌++◌, is_empty, length, drop,
  if◌then◌else◌,
}
use x_scope_hub_svc_plus.Prelude.Text.{
  Text, codes, to_lower, trim_space, after_prefix, cut, split, fields,
}
use x_scope_hub_svc_plus.Gateway.Translate.Sql.{
  sanitize_identifier, escape_value, select, or_default, field_condition,
}

pub data Error : Type 0 where
  empty_traceql not_from missing_stream : Error

pub data Result : Type 0 where
  sql : Text → Result
  failed : Error → Result

-- One part of the expression; none is a part that adds no condition. The right side of a comparison
-- goes into the SQL as it is.
unfoldable pub attribute_condition : Text → Option Text
unfolding field_condition sanitize_identifier trim_space
attribute_condition part = elim (cut (codes "!=") part) [
  | some (k, v) ↦ some (field_condition (codes "attributes") (codes "<>") k v)
  | none ↦ elim (cut (codes "=") part) [
    | some (k, v) ↦ some (field_condition (codes "attributes") (codes "=") k v)
    | none ↦ elim (cut (codes ">") part) [
      | some (k, v) ↦ some (sanitize_identifier k ++ codes " > " ++ trim_space v)
      | none ↦ elim (cut (codes "<") part) [
        | some (k, v) ↦ some (sanitize_identifier k ++ codes " < " ++ trim_space v)
        | none ↦ none
      ]
    ]
  ]
]

unfoldable pub attribute_conditions : List Text → List Text
unfolding attribute_condition trim_space
attribute_conditions [] = []
attribute_conditions (part ∷ parts) =
    let rest = attribute_conditions parts in
    let p = trim_space part in
    if is_empty p then rest else elim (attribute_condition p) [ none ↦ rest | some c ↦ c ∷ rest ]

-- The conditions after the first " where " of the lower-cased text, at the same place of the text
-- itself.
unfoldable pub where_conditions : Text → Text → List Text
unfolding cut trim_space split attribute_conditions
where_conditions q lower = elim (cut (codes " where ") lower) [
  | none ↦ []
  | some (before, after) ↦
      let expr = trim_space (drop (length before + 7) q) in
      if is_empty expr then [] else attribute_conditions (split (codes " and ") expr)
]

unfoldable pub stream_condition : Text → Text
unfolding escape_value
stream_condition stream = codes "trace_stream = '" ++ escape_value stream ++ codes "'"

abbrev starts_from : Option Text → Bool
starts_from none = false
starts_from (some rest) = true

unfoldable pub translate_traceql : Text → Text → Result
unfolding trim_space to_lower after_prefix fields where_conditions stream_condition select
    sanitize_identifier
translate_traceql q table =
    let trimmed = trim_space q in
    let name = or_default (codes "traces") (sanitize_identifier table) in
    let lower = to_lower trimmed in
    if is_empty trimmed
    then failed empty_traceql
    else if not (starts_from (after_prefix (codes "from") lower))
    then failed not_from
    else elim (fields trimmed) [
      | [] ↦ failed missing_stream
      | from ∷ tokens ↦ elim tokens [
        | [] ↦ failed missing_stream
        | stream ∷ more ↦
            sql (select name (stream_condition stream ∷ where_conditions trimmed lower))
      ]
    ]
