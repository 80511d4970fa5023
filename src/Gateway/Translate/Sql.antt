-- ===== src/Gateway/Translate/Sql.antt =====
-- sanitizeSQLIdentifier and escapeSQLValue of observe-gateway/internal/backend/client.go.
use x_scope_hub_svc_plus.Prelude.{ℕ, Bool, ◌||◌, List, [], ◌∷◌, ◌++◌, ◌==◌, if◌then◌else◌, is_empty}
use x_scope_hub_svc_plus.Prelude.Text.{Text, codes, trim, trim_space, join}

-- An ASCII single quote.
abbrev pub quote : ℕ
quote = 39

-- The cutset "\"`'".
abbrev pub is_quote_mark : ℕ → Bool
is_quote_mark c = c == 34 || c == 96 || c == quote

-- strings.ReplaceAll(in, " ", "_")
unfoldable pub underscores : Text → Text
underscores [] = []
underscores (c ∷ s) = (if c == 32 then 95 else c) ∷ underscores s

-- strings.ReplaceAll(in, "'", "''")
unfoldable pub double_quotes : Text → Text
double_quotes [] = []
double_quotes (c ∷ s) =
    let rest = double_quotes s in if c == quote then quote ∷ quote ∷ rest else c ∷ rest

unfoldable pub sanitize_identifier : Text → Text
unfolding trim trim_space underscores
sanitize_identifier s = underscores (trim is_quote_mark (trim_space s))

-- What a value stands for: the input less the white space and the quotation marks around it.
unfoldable pub plain_value : Text → Text
unfolding trim trim_space
plain_value s = trim is_quote_mark (trim_space s)

unfoldable pub escape_value : Text → Text
unfolding trim trim_space double_quotes
escape_value s = double_quotes (trim is_quote_mark (trim_space s))

-- fmt.Sprintf("SELECT * FROM %s WHERE %s", table, strings.Join(conditions, " AND "))
unfoldable pub select : Text → List Text → Text
unfolding join
select table conditions =
    codes "SELECT * FROM " ++ table ++ codes " WHERE " ++ join (codes " AND ") conditions

-- if table == "" { table = fallback }
abbrev pub or_default : Text → Text → Text
or_default fallback table = if is_empty table then fallback else table

-- fmt.Sprintf("…->>'%s' op '%s'", sanitizeSQLIdentifier(key), escapeSQLValue(value))
unfoldable pub field_condition : Text → Text → Text → Text → Text
unfolding sanitize_identifier escape_value
field_condition column op key value =
    column
    ++ codes "->>'"
    ++ sanitize_identifier key
    ++ codes "' "
    ++ op
    ++ codes " '"
    ++ escape_value value
    ++ codes "'"
