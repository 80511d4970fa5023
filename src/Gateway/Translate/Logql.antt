-- ===== src/Gateway/Translate/Logql.antt =====
-- translateLogQL of observe-gateway/internal/backend/client.go.
use x_scope_hub_svc_plus.Prelude.{
  ℕ, zero, suc, Bool, true, false, ◌&&◌, ◌||◌, Option, none, some, List, [], ◌∷◌, ◌++◌, ◌==◌, leb,
  is_empty, length, if◌then◌else◌,
}
use x_scope_hub_svc_plus.Prelude.Text.{Text, codes, trim_space, text_eq, cut, split, after_prefix}
use x_scope_hub_svc_plus.Gateway.Translate.Sql.{
  sanitize_identifier, escape_value, select, or_default, field_condition,
}

pub data Error : Type 0 where
  empty_logql invalid_selector : Error

pub data Result : Type 0 where
  sql : Text → Result
  failed : Error → Result

-- One part of a selector; none is a part that adds no condition.
unfoldable pub label_condition : Text → Option Text
unfolding field_condition
label_condition part = elim (cut (codes "!=") part) [
  | some (k, v) ↦ some (field_condition (codes "labels") (codes "<>") k v)
  | none ↦ elim (cut (codes "=") part) [
    | some (k, v) ↦ some (field_condition (codes "labels") (codes "=") k v)
    | none ↦ none
  ]
]

-- The loop over the parts.
unfoldable pub label_conditions : List Text → List Text
unfolding trim_space
label_conditions [] = []
label_conditions (part ∷ parts) =
    let rest = label_conditions parts in
    let p = trim_space part in
    if is_empty p then rest else elim (label_condition p) [ none ↦ rest | some c ↦ c ∷ rest ]

-- logPipelineRegex, `\|([=!~]{1,2})\s*"([^"]*)"`, part by part, after the bar.
abbrev pub is_operator : ℕ → Bool
is_operator c = c == b'=' || c == b'!' || c == b'~'

-- `\s` of RE2 has no vertical tab.
abbrev pub is_regex_space : ℕ → Bool
is_regex_space c = (leb 9 c && leb c 10) || (leb 12 c && leb c 13) || c == 32

unfoldable pub skip_spaces : Text → Text
skip_spaces [] = []
skip_spaces (c ∷ s) = if is_regex_space c then skip_spaces s else c ∷ s

-- `([^"]*)"`: what stands before the closing mark and what follows it.
unfoldable pub until_mark : Text → Option (Text × Text)
until_mark [] = none
until_mark (c ∷ s) =
    if c == 34
    then some ([], s)
    else elim (until_mark s) [ none ↦ none | some p ↦ some (c ∷ p.0, p.1) ]

-- `\s*"([^"]*)"`
unfoldable pub quoted : Text → Option (Text × Text)
unfolding skip_spaces until_mark
quoted s = elim (skip_spaces s) [ [] ↦ none | c ∷ t ↦ if c == 34 then until_mark t else none ]

-- `[=!~]{1,2}` takes two bytes where it can. Taking one instead never helps: what follows would have
-- to be white space or the mark.
unfoldable pub operator : Text → Option (Text × Text)
operator [] = none
operator (c ∷ []) = if is_operator c then some (c ∷ [], []) else none
operator (c ∷ d ∷ s) =
    if is_operator c
    then (if is_operator d then some (c ∷ d ∷ [], s) else some (c ∷ [], d ∷ s))
    else none

-- The operator, the value and the rest.
unfoldable pub match_stage : Text → Option (Text × Text × Text)
unfolding operator quoted
match_stage s = elim (operator s) [
  | none ↦ none
  | some (op, t) ↦ elim (quoted t) [ none ↦ none | some (val, rest) ↦ some (op, val, rest) ]
]

-- FindAllStringSubmatch, with the number of bytes that are still looked at.
unfoldable pub find_stages : ℕ → Text → List (Text × Text)
unfolding match_stage
find_stages zero s = []
find_stages (suc n) [] = []
find_stages (suc n) (c ∷ s) =
    let skip = find_stages n s in
    elim (c == b'|') [
      | false ↦ skip
      | true ↦ elim (match_stage s) [
        | none ↦ skip
        | some (op, val, rest) ↦ (op, val) ∷ find_stages n rest
      ]
    ]

-- The condition of one stage; an operator that is none of the four adds none.
unfoldable pub stage_condition : Text → Text → Option Text
unfolding escape_value text_eq
stage_condition op val =
    if text_eq op (codes "=")
    then some (codes "message ILIKE '%" ++ escape_value val ++ codes "%'")
    else if text_eq op (codes "!=")
    then some (codes "message NOT ILIKE '%" ++ escape_value val ++ codes "%'")
    else if text_eq op (codes "~")
    then some (codes "message ~ '" ++ escape_value val ++ codes "'")
    else if text_eq op (codes "!~")
    then some (codes "message !~ '" ++ escape_value val ++ codes "'")
    else none

unfoldable pub stage_conditions : List (Text × Text) → List Text
stage_conditions [] = []
stage_conditions ((op, val) ∷ stages) =
    let rest = stage_conditions stages in
    elim (stage_condition op val) [ none ↦ rest | some c ↦ c ∷ rest ]

-- The selector's conditions and what follows the selector; none is a selector that is not closed.
unfoldable pub selector : Text → Option (List Text × Text)
unfolding after_prefix cut split label_conditions trim_space
selector q = elim (after_prefix (codes "{") q) [
  | none ↦ some ([], q)
  | some inner ↦ elim (cut (codes "}") inner) [
    | none ↦ none
    | some (labels, rest) ↦ some (
      if is_empty labels then [] else label_conditions (split (codes ",") labels),
      trim_space rest,
    )
  ]
]

abbrev pub or_always : List Text → List Text
or_always [] = codes "1=1" ∷ []
or_always (c ∷ cs) = c ∷ cs

unfoldable pub translate_logql : Text → Text → Result
unfolding trim_space selector find_stages stage_conditions select sanitize_identifier
translate_logql q table =
    let trimmed = trim_space q in
    let name = or_default (codes "logs") (sanitize_identifier table) in
    if is_empty trimmed then failed empty_logql else elim (selector trimmed) [
      | none ↦ failed invalid_selector
      | some (labels, rest) ↦
          sql
            (select name (or_always (labels ++ stage_conditions (find_stages (length rest) rest))))
    ]
