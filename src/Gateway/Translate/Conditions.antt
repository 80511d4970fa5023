-- ===== src/Gateway/Translate/Conditions.antt =====
-- The literals of the conditions that translateLogQL of observe-gateway/internal/backend/client.go
-- writes, one list for each condition.
use mathlib.Core.Path.{subst}
use x_scope_hub_svc_plus.Prelude.{
  ◌≡◌, refl, ap, sym, append-nil, ◌∙◌, inl, inr, Option, none, some, List, [], ◌∷◌, ◌++◌, All, true,
  ◌||◌, if◌then◌else◌, is_empty, arith, append_assoc, Bool-cases, Option-cases,
}
use x_scope_hub_svc_plus.Prelude.Text.{Text, codes, trim_space, text_eq, after_prefix, cut, join}
use x_scope_hub_svc_plus.Gateway.Translate.Sql.{
  quote, double_quotes, sanitize_identifier, plain_value, escape_value, field_condition,
}
use x_scope_hub_svc_plus.Gateway.Translate.Logql.{
  label_condition, label_conditions, stage_condition, stage_conditions, or_always,
}
use x_scope_hub_svc_plus.Gateway.Translate.Literals.{
  scan, HasNoQuote, scan-plain, scan-literal, push_all, push_all-append, Reads, Reads-plain,
  field_condition-Reads,
}

pub some-eq : {A : Type 0} {a b : A} → some a ≡ some b → a ≡ b
some-eq h = cc

-- The conditions one by one, with the literals that each of them reads as.
abbrev pub ReadAs : List Text → List (List Text) → Type 0
ReadAs [] [] = Unit
ReadAs [] (v ∷ vs) = ⊥
ReadAs (c ∷ cs) [] = ⊥
ReadAs (c ∷ cs) (v ∷ vs) = Reads c v × ReadAs cs vs

abbrev pub flat : List (List Text) → List Text
flat [] = []
flat (v ∷ vs) = v ++ flat vs

pub ReadAs-append :
    (cs : List Text) (vs : List (List Text)) (ds : List Text) (ws : List (List Text))
    → ReadAs cs vs
    → ReadAs ds ws
    → ReadAs (cs ++ ds) (vs ++ ws)
ReadAs-append [] [] ds ws h k = k
ReadAs-append [] (v ∷ vs) ds ws h k = absurd h
ReadAs-append (c ∷ cs) [] ds ws h k = absurd h
ReadAs-append (c ∷ cs) (v ∷ vs) ds ws h k = (h.0, ReadAs-append cs vs ds ws h.1 k)

join-Reads :
    (cs : List Text) (vs : List (List Text))
    → ReadAs cs vs
    → Reads (join (codes " AND ") cs) (flat vs)
unfolding join
join-Reads [] [] h = Reads-plain [] tt
join-Reads [] (v ∷ vs) h = absurd h
join-Reads (c ∷ cs) [] h = absurd h
join-Reads (c ∷ []) (v ∷ []) h = rw append-nil h.0
join-Reads (c ∷ []) (v ∷ w ∷ vs) h = absurd h.1
join-Reads (c ∷ d ∷ cs) (v ∷ []) h = absurd h.1
join-Reads (c ∷ d ∷ cs) (v ∷ w ∷ vs) h =
    let r = h.0 in
    let s = join-Reads (d ∷ cs) (w ∷ vs) h.1 in
    record {
      at = λ rest clear.
          simp (append_assoc, push_all-append)
            (r.at _ (omega arith)
              ∙ ap (push_all v) (
                  scan-plain (codes " AND ") _ (omega arith)
                  ∙ s.at rest clear
                  ∙ push_all-append w (flat vs) (scan none rest)));
    }

-- The name and the value of a part of the selector.
abbrev pub part_pair : Text → Option (Text × Text)
part_pair part = elim (cut (codes "!=") part) [ some p ↦ some p | none ↦ cut (codes "=") part ]

abbrev HasCleanPair : Option (Text × Text) → Type 0
HasCleanPair none = Unit
HasCleanPair (some (k, v)) = HasNoQuote (sanitize_identifier k)

-- The sanitised name of the part has no quote.
abbrev pub HasCleanName : Text → Type 0
HasCleanName part = HasCleanPair (part_pair (trim_space part))

part_pair-differs :
    (part : Text) (p : Text × Text) → cut (codes "!=") part ≡ some p → part_pair part ≡ some p
part_pair-differs part p h = rw (h, part_pair)

part_pair-equals :
    (part : Text) (p : Text × Text)
    → cut (codes "!=") part ≡ none
    → cut (codes "=") part ≡ some p
    → part_pair part ≡ some p
part_pair-equals part p no_ne h = rw (no_ne, h, part_pair)

label_condition-skipped : (part : Text) → part_pair part ≡ none → label_condition part ≡ none
unfolding label_condition
label_condition-skipped part h = elim (Option-cases (cut (codes "!=") part)) [
  | inr (p, differs) ↦ absurd (cc (part_pair-differs part p differs, h))
  | inl no_ne ↦ elim (Option-cases (cut (codes "=") part)) [
    | inr (p, equals) ↦ absurd (cc (part_pair-equals part p no_ne equals, h))
    | inl no_eq ↦ rw (no_ne, no_eq, label_condition) refl
  ]
]

label_condition-added :
    (part k v : Text)
    → part_pair part ≡ some (k, v)
    → (op : Text) × HasNoQuote op
      × (label_condition part ≡ some (field_condition (codes "labels") op k v))
unfolding label_condition
label_condition-added part k v h = elim (Option-cases (cut (codes "!=") part)) [
  | inr (p, differs) ↦
      let same : p ≡ (k, v) = some-eq (sym (part_pair-differs part p differs) ∙ h) in
      (codes "<>", omega arith, rw (differs ∙ ap some same, label_condition) refl)
  | inl no_ne ↦ elim (Option-cases (cut (codes "=") part)) [
    | inr (p, equals) ↦
        let same : p ≡ (k, v) = some-eq (sym (part_pair-equals part p no_ne equals) ∙ h) in
        (codes "=", omega arith, rw (no_ne, equals ∙ ap some same, label_condition) refl)
    | inl no_eq ↦ absurd (cc (rw (no_ne, no_eq, part_pair) at h))
  ]
]

-- What the user means by the parts of a selector: a name and a value for each of them that has both.
unfoldable pub label_literals : List Text → List (List Text)
label_literals [] = []
label_literals (part ∷ parts) =
    let rest = label_literals parts in
    elim (part_pair (trim_space part)) [
      | none ↦ rest
      | some (k, v) ↦ (sanitize_identifier k ∷ plain_value v ∷ []) ∷ rest
    ]

blank_part : (part : Text) → is_empty part ≡ true → part_pair part ≡ none
unfolding cut after_prefix
blank_part [] h = refl
blank_part (c ∷ part) h = absurd cc

pub label_conditions-ReadAs :
    (parts : List Text)
    → All HasCleanName parts
    → ReadAs (label_conditions parts) (label_literals parts)
unfolding label_conditions label_literals
label_conditions-ReadAs [] h = tt
label_conditions-ReadAs (part ∷ parts) (clean, h) =
    let rest = label_conditions-ReadAs parts h in
    elim (Bool-cases (is_empty (trim_space part))) [
      | inl blank ↦ rw (blank, label_literals, blank_part (trim_space part) blank) rest
      | inr full ↦ elim (Option-cases (part_pair (trim_space part))) [
        | inl skipped ↦
            rw (full, label_literals, skipped, label_condition-skipped (trim_space part) skipped)
              rest
        | inr ((k, v), pair) ↦
            let (op, plain, added) = label_condition-added (trim_space part) k v pair in
            rw (full, label_literals, pair, added)
              (
                field_condition-Reads (codes "labels") op k v (omega arith) plain
                    (subst HasCleanPair pair clean),
                rest,
              )
      ]
    ]

-- A condition that ends in one literal.
literal-Reads :
    (c before v : Text)
    → HasNoQuote before
    → ((rest : Text) → c ++ rest ≡ before ++ quote ∷ double_quotes v ++ quote ∷ rest)
    → Reads c (v ∷ [])
literal-Reads c before v h same = record {
  at = λ rest clear.
      rw (same rest)
        (simp append_assoc (scan-plain before _ h ∙ unfold scan in scan-literal v [] rest clear));
}

-- fmt.Sprintf("… '%%%s%%'", …): the value between two percent signs
double_quotes-percent :
    (v : Text) → double_quotes (37 ∷ v ++ 37 ∷ []) ≡ 37 ∷ double_quotes v ++ 37 ∷ []
unfolding double_quotes
double_quotes-percent v = ap (λ (u : Text). 37 ∷ u) (inner v)
  where
    inner : (u : Text) → double_quotes (u ++ 37 ∷ []) ≡ double_quotes u ++ 37 ∷ []
    inner [] = refl
    inner (c ∷ u) = ground (arith, inner u)

percent-Reads :
    (before val : Text)
    → HasNoQuote before
    → Reads
        (before ++ quote ∷ 37 ∷ [] ++ escape_value val ++ codes "%'")
        ((37 ∷ plain_value val ++ 37 ∷ []) ∷ [])
unfolding escape_value
percent-Reads before val h =
    literal-Reads _ before (37 ∷ plain_value val ++ 37 ∷ []) h
      (λ rest. rw double_quotes-percent (unfold plain_value in simp append_assoc))

plain-Reads :
    (before val : Text)
    → HasNoQuote before
    → Reads (before ++ quote ∷ [] ++ escape_value val ++ codes "'") (plain_value val ∷ [])
unfolding escape_value
plain-Reads before val h =
    literal-Reads _ before (plain_value val) h (λ rest. unfold plain_value in simp append_assoc)

-- What the user means by a stage: the value, between percent signs where it is to be contained.
unfoldable pub stage_literals : List (Text × Text) → List (List Text)
stage_literals [] = []
stage_literals ((op, val) ∷ stages) =
    let rest = stage_literals stages in
    if text_eq op (codes "=") || text_eq op (codes "!=")
    then ((37 ∷ plain_value val ++ 37 ∷ []) ∷ []) ∷ rest
    else if text_eq op (codes "~") || text_eq op (codes "!~")
    then (plain_value val ∷ []) ∷ rest
    else rest

pub stage_conditions-ReadAs :
    (stages : List (Text × Text)) → ReadAs (stage_conditions stages) (stage_literals stages)
unfolding stage_conditions stage_literals stage_condition
stage_conditions-ReadAs [] = tt
stage_conditions-ReadAs ((op, val) ∷ stages) =
    let rest = stage_conditions-ReadAs stages in
    elim (Bool-cases (text_eq op (codes "="))) [
      | inl contains ↦
          rw (contains, stage_conditions)
            (percent-Reads (codes "message ILIKE ") val (omega arith), rest)
      | inr not_contains ↦ elim (Bool-cases (text_eq op (codes "!="))) [
        | inl lacks ↦
            rw (not_contains, lacks, stage_conditions)
              (percent-Reads (codes "message NOT ILIKE ") val (omega arith), rest)
        | inr not_lacks ↦ elim (Bool-cases (text_eq op (codes "~"))) [
          | inl matches ↦
              rw (not_contains, not_lacks, matches, stage_conditions)
                (plain-Reads (codes "message ~ ") val (omega arith), rest)
          | inr not_matches ↦ elim (Bool-cases (text_eq op (codes "!~"))) [
            | inl differs ↦
                rw (not_contains, not_lacks, not_matches, differs, stage_conditions)
                  (plain-Reads (codes "message !~ ") val (omega arith), rest)
            | inr other ↦ rw (not_contains, not_lacks, not_matches, other, stage_conditions) rest
          ]
        ]
      ]
    ]

pub always-Reads :
    (cs : List Text) (vs : List (List Text))
    → ReadAs cs vs
    → Reads (join (codes " AND ") (or_always cs)) (flat vs)
always-Reads [] [] h = unfold join in Reads-plain (codes "1=1") (omega arith)
always-Reads [] (v ∷ vs) h = absurd h
always-Reads (c ∷ cs) vs h = join-Reads (c ∷ cs) vs h
