-- ===== src/Gateway/Translate/Tests.antt =====
-- The translation at concrete queries.
use x_scope_hub_svc_plus.Prelude.{◌≡◌, refl, none, some, [], ◌∷◌, arith}
use x_scope_hub_svc_plus.Prelude.Text.{
  Text, codes, is_space, trim, trim_left, trim_right, trim_space, text_eq, after_prefix, cut,
  split_up_to, split, join,
}
use x_scope_hub_svc_plus.Gateway.Translate.Sql.{
  underscores, double_quotes, sanitize_identifier, plain_value, escape_value, select,
  field_condition,
}
use x_scope_hub_svc_plus.Gateway.Translate.Logql.{
  sql, label_condition, label_conditions, skip_spaces, until_mark, quoted, operator, match_stage,
  find_stages, stage_condition, stage_conditions, selector, translate_logql,
}
use x_scope_hub_svc_plus.Gateway.Translate.Traceql.{attribute_condition}
use x_scope_hub_svc_plus.Gateway.Translate.Literals.{scan}
use x_scope_hub_svc_plus.Gateway.Translate.Conditions.{label_literals, stage_literals}
use x_scope_hub_svc_plus.Gateway.Translate.Closed.{query_literals, translate_logql-closed}

abbrev query : Text
query = codes "{app=\"o'ne\"} |= \"a'b\""

abbrev answer : Text
answer = codes "SELECT * FROM logs WHERE labels->>'app' = 'o''ne' AND message ILIKE '%a''b%'"

translates : translate_logql query [] ≡ sql answer
unfolding translate_logql trim_space trim trim_left trim_right is_space selector after_prefix cut
    split split_up_to label_conditions label_condition field_condition sanitize_identifier
    escape_value underscores double_quotes find_stages match_stage operator quoted skip_spaces
    until_mark stage_conditions stage_condition text_eq select join
translates = refl

translate_logql-closed_example : scan none answer ≡ some (query_literals (trim_space query))
unfolding trim_space trim trim_left trim_right is_space after_prefix cut split split_up_to
    sanitize_identifier underscores
translate_logql-closed_example =
    translate_logql-closed query [] answer (omega arith) (omega arith) translates

-- The literals are those that the query means.
meant : query_literals (trim_space query) ≡ codes "app" ∷ codes "o'ne" ∷ codes "%a'b%" ∷ []
unfolding trim_space trim trim_left trim_right is_space selector after_prefix cut split split_up_to
    label_conditions label_condition field_condition label_literals stage_literals
    sanitize_identifier plain_value underscores find_stages match_stage operator quoted skip_spaces
    until_mark text_eq
meant = refl

-- A part with `>=` is read as an equality on a field whose name ends in `>`.
at_least : attribute_condition (codes "took >= 5") ≡ some (codes "attributes->>'took_>' = '5'")
unfolding attribute_condition cut after_prefix field_condition sanitize_identifier escape_value
    underscores double_quotes trim_space trim trim_left trim_right is_space
at_least = refl
