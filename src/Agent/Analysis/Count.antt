-- ===== src/Agent/Analysis/Count.antt =====
-- llm-ops-agent/internal/analysis/service.go: countAny, over decoded JSON.
use x_scope_hub_svc_plus.Prelude.{ℕ, suc, Bool, List, [], ◌∷◌, ◌++◌, map, ltb, if◌then◌else◌}
use x_scope_hub_svc_plus.Prelude.Text.{Text, codes, text_eq}

-- A decoded JSON value. The members of an object come in the order in which a loop meets them.
mutual
  pub data Json : Type 0 where
    null : Json
    boolean : Bool → Json
    number string : Text → Json
    array : Items → Json
    object : Members → Json

  pub data Items : Type 0 where
    no_items : Items
    item : Json → Items → Items

  pub data Members : Type 0 where
    no_members : Members
    member : Text → Json → Members → Members

abbrev items_length : Items → ℕ
items_length no_items = 0
items_length (item j js) = suc (items_length js)

-- The first number that is not 0, or 0.
unfoldable pub first_positive : List ℕ → ℕ
first_positive [] = 0
first_positive (n ∷ ns) = if ltb 0 n then n else first_positive ns

unfoldable pub count_under : Text → List (Text × ℕ) → List ℕ
count_under key [] = []
count_under key ((k, n) ∷ counts) = if text_eq k key then n ∷ [] else count_under key counts

-- The counts of the children under some keys, in the order of the keys.
unfoldable pub counts_under : List Text → List (Text × ℕ) → List ℕ
unfolding count_under
counts_under [] counts = []
counts_under (key ∷ keys) counts = count_under key counts ++ counts_under keys counts

abbrev pub well_known : List Text
well_known =
    codes "hits"
    ∷ codes "items"
    ∷ codes "rows"
    ∷ codes "records"
    ∷ codes "series"
    ∷ codes "result"
    ∷ codes "data"
    ∷ []

unfoldable pub object_count : List (Text × ℕ) → ℕ
unfolding first_positive counts_under
object_count counts = first_positive (counts_under well_known counts ++ map (λ c. c.1) counts)

unfoldable mutual
  unfolding object_count

  pub count_any : Json → ℕ
  count_any null = 0
  count_any (boolean b) = 0
  count_any (number n) = 0
  count_any (string s) = 0
  count_any (array js) = items_length js
  count_any (object ms) = object_count (member_counts ms)

  pub member_counts : Members → List (Text × ℕ)
  member_counts no_members = []
  member_counts (member k j ms) = (k, count_any j) ∷ member_counts ms
