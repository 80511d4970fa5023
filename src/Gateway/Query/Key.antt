-- ===== src/Gateway/Query/Key.antt =====
-- buildCacheKey of observe-gateway/internal/server/server.go. The text of a time is a parameter.
use x_scope_hub_svc_plus.Prelude.{
  ℕ, Option, none, some, List, [], ◌∷◌, ◌++◌, is_empty, if◌then◌else◌,
}
use x_scope_hub_svc_plus.Prelude.Text.{Text, codes, to_lower, join}
use x_scope_hub_svc_plus.Gateway.Query.{Request}

module _ (format_time : ℕ → Text) where
  unfoldable pub time_part : Option ℕ → List Text
  time_part none = []
  time_part (some t) = format_time t ∷ []

  -- The parts that a key has only sometimes.
  unfoldable pub extras : Request → List Text
  unfolding time_part
  extras r =
      time_part r.start
      ++ time_part r.end
      ++ (if is_empty r.step then [] else r.step ∷ [])
      ++ (if r.normalize then codes "normalize=true" ∷ [] else [])

  unfoldable pub build_cache_key : Request → Text → Text
  unfolding extras join to_lower
  build_cache_key r tenant =
      join (codes "|") (to_lower r.lang ∷ r.query ∷ r.template ∷ tenant ∷ extras r)
