-- ===== src/Gateway/Query.antt =====
-- What a query is: observe-gateway/internal/query/types.go, and the cache and the audit log of
-- observe-gateway/internal/cache and internal/audit. A time is a number of nanoseconds, and the zero
-- time is none.
pub mod Template
pub mod Key
pub mod Owner
pub mod Handler
use x_scope_hub_svc_plus.Prelude.{
  ℕ, Bool, true, false, ◌&&◌, Option, none, some, List, [], ◌∷◌, ◌++◌, leb, if◌then◌else◌,
}
use x_scope_hub_svc_plus.Prelude.Text.{Text, text_eq}

pub record Request : Type 0 where
  pub lang : Text
  pub query : Text
  pub template : Text
  pub variables : List (Text × Text)  -- the map, in the order in which a loop meets its keys
  pub start : Option ℕ
  pub end : Option ℕ
  pub step : Text
  pub normalize : Bool

pub record Stats : Type 0 where
  pub backend : Text
  pub cached : Bool
  pub duration_ms : ℕ
  pub cost : ℕ

pub record Response (Payload : Type 0) : Type 0 where
  pub lang : Text
  pub tenant : Text
  pub result : Payload
  pub stats : Stats

abbrev is_some : Option ℕ → Bool
is_some none = false
is_some (some t) = true

-- !r.Start.IsZero() && !r.End.IsZero()
unfoldable pub has_time_range : Request → Bool
has_time_range r = is_some r.start && is_some r.end

-- r.Start.After(r.End), where both are set
unfoldable pub starts_late : Request → Bool
starts_late r = elim r.start [
  | none ↦ false
  | some a ↦ elim r.end [ none ↦ false | some b ↦ if leb a b then false else true ]
]

-- A record of the audit log.
pub record Entry : Type 0 where
  pub tenant : Text
  pub user : Text
  pub lang : Text
  pub query : Text
  pub cost : ℕ
  pub duration : ℕ
  pub cached : Bool
  pub backend : Text
  pub error : Text

-- Logger.Log, where what is written is a list.
unfoldable pub log : Bool → Entry → List Entry → List Entry
log enabled entry entries = if enabled then entry ∷ entries else entries

-- The cache: its store is ristretto's, which may drop what is set and forget what it holds.
pub record Cache (Payload : Type 0) : Type 0 where
  pub enabled : Bool
  pub store : List (Text × Payload)

module _ {Payload : Type 0} where
  unfoldable pub find : Text → List (Text × Payload) → Option Payload
  find key [] = none
  find key ((k, v) ∷ store) = if text_eq k key then some v else find key store

  -- Cache.Get; `held` says whether the store still holds what was set.
  unfoldable pub get : Bool → Text → Cache Payload → Option Payload
  unfolding find
  get held key c = if c.enabled && held then find key c.store else none

  -- Cache.Set; `accepts` says whether the store takes the entry. The cost of an entry, its length,
  -- only steers what the store forgets.
  unfoldable pub set : Bool → Text → Payload → Cache Payload → Cache Payload
  set accepts key val c =
      if c.enabled && accepts then record c { store = (key, val) ∷ c.store } else c
