-- ===== src/Gateway/Translate/Closed.antt =====
-- The literals of the SQL that translateLogQL of observe-gateway/internal/backend/client.go gives.
use mathlib.Core.Path.{subst}
use x_scope_hub_svc_plus.Prelude.{
  ◌≡◌, refl, ap, sym, append-nil, ◌∙◌, inl, inr, Option, none, some, List, [], ◌∷◌, ◌++◌, All,
  if◌then◌else◌, is_empty, length, arith, append_assoc, Bool-cases, Option-cases,
}
use x_scope_hub_svc_plus.Prelude.Text.{Text, codes, trim_space, after_prefix, cut, split, join}
use x_scope_hub_svc_plus.Gateway.Translate.Sql.{sanitize_identifier, select, or_default}
use x_scope_hub_svc_plus.Gateway.Translate.Logql.{
  sql, label_conditions, stage_conditions, find_stages, selector, or_always, translate_logql,
}
use x_scope_hub_svc_plus.Gateway.Translate.Literals.{scan, HasNoQuote, scan-plain, push_all, Reads}
use x_scope_hub_svc_plus.Gateway.Translate.Conditions.{
  ReadAs, flat, ReadAs-append, HasCleanName, label_literals, label_conditions-ReadAs,
  stage_literals, stage_conditions-ReadAs, always-Reads, some-eq,
}

sql-eq : {a b : Text} → sql a ≡ sql b → a ≡ b
sql-eq h = cc

push_all-nil : (vs : List Text) → push_all vs (some []) ≡ some vs
push_all-nil [] = refl
push_all-nil (v ∷ vs) = rw (push_all-nil vs)

select-Reads :
    (table : Text) (cs : List Text) (vs : List Text)
    → HasNoQuote table
    → Reads (join (codes " AND ") cs) vs
    → Reads (select table cs) vs
unfolding select
select-Reads table cs vs h r = record {
  at = λ rest clear. simp append_assoc (
      scan-plain (codes "SELECT * FROM ") _ (omega arith)
      ∙ scan-plain table _ h
      ∙ scan-plain (codes " WHERE ") _ (omega arith)
      ∙ r.at rest clear);
}

-- The parts of the selector that a query begins with.
abbrev pub selector_parts : Text → List Text
selector_parts q = elim (after_prefix (codes "{") q) [
  | none ↦ []
  | some inner ↦ elim (cut (codes "}") inner) [
    | none ↦ []
    | some (labels, rest) ↦ split (codes ",") labels
  ]
]

-- The stages that follow the selector.
abbrev pub stages_behind : Option (List Text × Text) → List (Text × Text)
stages_behind none = []
stages_behind (some (labels, rest)) = find_stages (length rest) rest

-- What the user means by a query: the names and values of its selector, then the values of its stages.
abbrev pub query_literals : Text → List Text
query_literals q =
    flat (label_literals (selector_parts q) ++ stage_literals (stages_behind (selector q)))

no_labels : [] ≡ label_literals (split (codes ",") [])
unfolding label_literals split trim_space cut after_prefix
no_labels = refl

selector-ReadAs :
    (q rest : Text) (cs : List Text)
    → All HasCleanName (selector_parts q)
    → selector q ≡ some (cs, rest)
    → ReadAs cs (label_literals (selector_parts q))
unfolding selector label_literals
selector-ReadAs q rest cs h e = elim (Option-cases (after_prefix (codes "{") q)) [
  | inl bare ↦ rw bare (subst (λ ds. ReadAs ds []) (ap (λ p. p.0) (some-eq (rw bare at e))) tt)
  | inr (inner, opens) ↦ elim (Option-cases (cut (codes "}") inner)) [
    | inl unclosed ↦ absurd (cc (rw (opens, unclosed) at e))
    | inr ((labels, after), closes) ↦
        rw (opens, closes)
          (subst (λ ds. ReadAs ds (label_literals (split (codes ",") labels)))
            (ap (λ p. p.0) (some-eq (rw (opens, closes) at e)))
            (labels_read labels (rw (opens, closes) at h)))
  ]
]
  where
    labels_read :
        (labels : Text)
        → All HasCleanName (split (codes ",") labels)
        → ReadAs
            (if is_empty labels then [] else label_conditions (split (codes ",") labels))
            (label_literals (split (codes ",") labels))
    labels_read [] k = subst (ReadAs []) no_labels tt
    labels_read (c ∷ cs) k = label_conditions-ReadAs (split (codes ",") (c ∷ cs)) k

-- Where the name of the table and the sanitised names of the fields hold no quote, the SQL of a LogQL
-- query reads as SQL to its end, and its string literals are, in their order, just the names and the
-- values that the query has in the parts of its selector, and the values of its stages, between percent
-- signs for `=` and `!=`: no value leaves its literal, and there is no other literal.
pub translate_logql-closed :
    (q table s : Text)
    → HasNoQuote (or_default (codes "logs") (sanitize_identifier table))
    → All HasCleanName (selector_parts (trim_space q))
    → translate_logql q table ≡ sql s
    → scan none s ≡ some (query_literals (trim_space q))
unfolding translate_logql
translate_logql-closed q table s h clean e = elim (Bool-cases (is_empty (trim_space q))) [
  | inl blank ↦ absurd (cc (rw blank at e))
  | inr full ↦ elim (Option-cases (selector (trim_space q))) [
    | inl unclosed ↦ absurd (cc (rw (full, unclosed) at e))
    | inr ((labels, rest), selected) ↦ rw selected (
        closed_sql
          (select-Reads _ (or_always (labels ++ stage_conditions (find_stages (length rest) rest)))
            _ h
            (always-Reads _ _ (
              ReadAs-append labels _ _ _ (selector-ReadAs (trim_space q) rest labels clean selected)
                (stage_conditions-ReadAs (find_stages (length rest) rest)))))
          (rw (full, selected) at e))
  ]
]
  where
    closed_sql : {c : Text} {vs : List Text} → Reads c vs → sql c ≡ sql s → scan none s ≡ some vs
    closed_sql {c} {vs} r same =
        ap (scan none) (sym (sql-eq same) ∙ sym (append-nil c))
        ∙ r.at [] tt
        ∙ (unfold scan in push_all-nil vs)
