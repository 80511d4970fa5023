-- ===== src/Gateway/Translate/Literals.antt =====
-- User text in the SQL of observe-gateway/internal/backend/client.go stays inside string literals.
use x_scope_hub_svc_plus.Prelude.{
  ℕ, ◌≡◌, refl, ap, sym, ◌∙◌, ◌≢◌, inl, inr, true, false, Option, none, some, List, [], ◌∷◌, ◌++◌,
  ◌==◌, ==_iff, All, if◌then◌else◌, arith, append_assoc, append-nil, Bool-cases,
}
use x_scope_hub_svc_plus.Prelude.Text.{Text}
use x_scope_hub_svc_plus.Gateway.Translate.Sql.{
  quote, double_quotes, sanitize_identifier, plain_value, field_condition,
}

abbrev pub push : Text → Option (List Text) → Option (List Text)
push v none = none
push v (some vs) = some (v ∷ vs)

-- The string literals of a piece of SQL, as SQL reads them: two quotes inside a literal are one, and
-- a literal that is not closed is no SQL. The first argument is the literal that is being read.
unfoldable pub scan : Option Text → Text → Option (List Text)
scan none [] = some []
scan (some v) [] = none
scan none (c ∷ s) =
    let open_one = scan (some []) s in
    let go_on = scan none s in elim (c == quote) [ true ↦ open_one | false ↦ go_on ]
scan (some v) (c ∷ []) = if c == quote then some (v ∷ []) else none
scan (some v) (c ∷ d ∷ s) =
    let doubled = scan (some (v ++ quote ∷ [])) s in
    let closed = push v (scan none (d ∷ s)) in
    let go_on = scan (some (v ++ c ∷ [])) (d ∷ s) in
    elim (c == quote) [
      | true ↦ elim (d == quote) [ true ↦ doubled | false ↦ closed ]
      | false ↦ go_on
    ]

-- What does not begin with a quote.
abbrev pub IsClear : Text → Type 0
IsClear [] = Unit
IsClear (c ∷ s) = c ≢ quote

abbrev pub HasNoQuote : Text → Type 0
HasNoQuote = All (λ c. c ≢ quote)

pub scan-plain : (a rest : Text) → HasNoQuote a → scan none (a ++ rest) ≡ scan none rest
unfolding scan
scan-plain [] rest h = refl
scan-plain (c ∷ a) rest h = ground (arith, scan-plain a rest h.1)

scan-close : (v rest : Text) → IsClear rest → scan (some v) (quote ∷ rest) ≡ push v (scan none rest)
unfolding scan
scan-close v [] h = refl
scan-close v (d ∷ s) h = ground arith

scan-doubled : (w s : Text) → scan (some w) (quote ∷ quote ∷ s) ≡ scan (some (w ++ quote ∷ [])) s
unfolding scan
scan-doubled w s = refl

scan-other :
    (c : ℕ) (w t rest : Text)
    → (c == quote) ≡ false
    → scan (some w) (c ∷ (t ++ quote ∷ rest)) ≡ scan (some (w ++ c ∷ [])) (t ++ quote ∷ rest)
unfolding scan
scan-other c w [] rest h = ground arith
scan-other c w (d ∷ t) rest h = ground arith

pub scan-literal :
    (v w rest : Text)
    → IsClear rest
    → scan (some w) (double_quotes v ++ quote ∷ rest) ≡ push (w ++ v) (scan none rest)
unfolding double_quotes
scan-literal [] w rest h = rw append-nil (scan-close w rest h)
scan-literal (c ∷ v) w rest h = elim (Bool-cases (c == quote)) [
  | inl is_quote ↦ rw is_quote (
      scan-doubled w (double_quotes v ++ quote ∷ rest)
      ∙ scan-literal v (w ++ quote ∷ []) rest h
      ∙ ap (λ (u : Text). push u (scan none rest))
          (append_assoc w (quote ∷ []) v
            ∙ ap (λ (k : ℕ). w ++ k ∷ v) (sym ((==_iff c quote).0 is_quote))))
  | inr other ↦ rw other (
      scan-other c w (double_quotes v) rest other
      ∙ scan-literal v (w ++ c ∷ []) rest h
      ∙ ap (λ (u : Text). push u (scan none rest)) (append_assoc w (c ∷ []) v))
]

double_quotes-plain : (v : Text) → HasNoQuote v → double_quotes v ≡ v
unfolding double_quotes
double_quotes-plain [] h = refl
double_quotes-plain (c ∷ v) h = ground (arith, double_quotes-plain v h.1)

abbrev pub push_all : List Text → Option (List Text) → Option (List Text)
push_all [] o = o
push_all (v ∷ vs) o = push v (push_all vs o)

-- A piece of SQL that opens and closes just the given literals, whatever stands behind it.
pub record Reads (c : Text) (vs : List Text) : Type 0 where
  pub at : (rest : Text) → IsClear rest → scan none (c ++ rest) ≡ push_all vs (scan none rest)

pub Reads-plain : (c : Text) → HasNoQuote c → Reads c []
Reads-plain c h = record { at = λ rest clear. scan-plain c rest h }

Reads-literal : (v : Text) → Reads (quote ∷ double_quotes v ++ quote ∷ []) (v ∷ [])
Reads-literal v = record {
  at = λ rest clear. rw append_assoc (unfold scan in scan-literal v [] rest clear);
}

pub push_all-append :
    (vs ws : List Text) (o : Option (List Text))
    → push_all (vs ++ ws) o ≡ push_all vs (push_all ws o)
push_all-append [] ws o = refl
push_all-append (v ∷ vs) ws o = ap (push v) (push_all-append vs ws o)

-- Two pieces, where the second begins with a byte that is no quote.
Reads-append :
    (c : Text) (x : ℕ) (d : Text) (vs ws : List Text)
    → Reads c vs
    → x ≢ quote
    → Reads (x ∷ d) ws
    → Reads (c ++ x ∷ d) (vs ++ ws)
Reads-append c x d vs ws r clear k = record {
  at = λ rest h.
      rw (append_assoc c (x ∷ d) rest, push_all-append)
        (r.at (x ∷ d ++ rest) clear ∙ ap (push_all vs) (k.at rest h));
}

scan-name :
    (k rest : Text)
    → HasNoQuote k
    → IsClear rest
    → scan (some []) (k ++ quote ∷ rest) ≡ push k (scan none rest)
scan-name k rest h clear =
    ap (λ (u : Text). scan (some []) (u ++ quote ∷ rest)) (sym (double_quotes-plain k h))
    ∙ scan-literal k [] rest clear

pub scan-arrow : (s : Text) → scan none (45 ∷ 62 ∷ 62 ∷ 39 ∷ s) ≡ scan (some []) s
unfolding scan
scan-arrow s = refl

scan-space : (s : Text) → scan none (32 ∷ s) ≡ scan none s
unfolding scan
scan-space s = refl

scan-space_open : (s : Text) → scan none (32 ∷ 39 ∷ s) ≡ scan (some []) s
unfolding scan
scan-space_open s = refl

module _ (column k op v rest : Text) where
  field-scan :
      HasNoQuote column
      → HasNoQuote k
      → HasNoQuote op
      → IsClear rest
      → scan none (
          column
          ++ 45 ∷ 62 ∷ 62 ∷ 39 ∷ (k ++ 39 ∷ 32 ∷ (op ++ 32 ∷ 39 ∷ (double_quotes v ++ 39 ∷ rest))))
        ≡ push k (push v (scan none rest))
  field-scan hc hk ho clear =
      scan-plain column _ hc
      ∙ scan-arrow _
      ∙ scan-name k _ hk (omega arith)
      ∙ ap (push k)
          (scan-space _ ∙ scan-plain op _ ho ∙ scan-space_open _ ∙ scan-literal v [] rest clear)

-- A condition on a field opens and closes two literals: the sanitised name of the field, where that
-- has no quote, and the value less the white space and the quotation marks around it.
pub field_condition-Reads :
    (column op key value : Text)
    → HasNoQuote column
    → HasNoQuote op
    → HasNoQuote (sanitize_identifier key)
    → Reads (field_condition column op key value) (sanitize_identifier key ∷ plain_value value ∷ [])
unfolding field_condition plain_value
field_condition-Reads column op key value hc ho hk = record {
  at = λ rest clear.
      simp append_assoc
        (field-scan column (sanitize_identifier key) op (plain_value value) rest hc hk ho clear);
}
