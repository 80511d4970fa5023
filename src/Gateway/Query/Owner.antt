-- ===== src/Gateway/Query/Owner.antt =====
-- The key of the cache tells the tenant (buildCacheKey of
-- observe-gateway/internal/server/server.go), although the query may hold the separator.
use x_scope_hub_svc_plus.Prelude.{
  ℕ, ◌≡◌, refl, ap, sym, ◌∙◌, ◌≢◌, inl, inr, Bool, true, false, List, [], ◌∷◌, ◌++◌, ◌==◌, All,
  if◌then◌else◌, arith, append_assoc, append-nil, Bool-cases,
}
use x_scope_hub_svc_plus.Prelude.Text.{Text, codes, to_lower, join}
use x_scope_hub_svc_plus.Gateway.Query.{Request}
use x_scope_hub_svc_plus.Gateway.Query.Key.{extras, build_cache_key}

abbrev pub HasNoBar : Text → Type 0
HasNoBar = All (λ c. c ≢ 124)

-- The parts of a text between the bars, the first one with what was read before.
unfoldable pieces : Text → Text → List Text
pieces acc [] = acc ∷ []
pieces acc (c ∷ s) =
    let next = pieces [] s in
    let longer = pieces (acc ++ c ∷ []) s in if c == 124 then acc ∷ next else longer

-- The last part that is not an extra one.
unfoldable last_name : (Text → Bool) → Text → List Text → Text
last_name is_extra found [] = found
last_name is_extra found (p ∷ ps) = last_name is_extra (if is_extra p then found else p) ps

pieces-plain : (acc p : Text) → HasNoBar p → pieces acc p ≡ (acc ++ p) ∷ []
unfolding pieces
pieces-plain acc [] h = rw append-nil
pieces-plain acc (c ∷ p) h =
    ground (arith, pieces-plain (acc ++ c ∷ []) p h.1, append_assoc acc (c ∷ []) p)

pieces-bar : (acc a b : Text) → pieces acc (a ++ 124 ∷ b) ≡ pieces acc a ++ pieces [] b
unfolding pieces
pieces-bar acc [] b = refl
pieces-bar acc (c ∷ a) b = elim (Bool-cases (c == 124)) [
  | inl bar ↦ rw (bar, pieces) (ap (λ l. acc ∷ l) (pieces-bar [] a b))
  | inr other ↦ rw (other, pieces) (pieces-bar (acc ++ c ∷ []) a b)
]

last_name-append :
    (e : Text → Bool) (f : Text) (xs ys : List Text)
    → last_name e f (xs ++ ys) ≡ last_name e (last_name e f xs) ys
unfolding last_name
last_name-append e f [] ys = refl
last_name-append e f (x ∷ xs) ys = last_name-append e (if e x then f else x) xs ys

last_name-extras :
    (e : Text → Bool) (f : Text) (xs : List Text) → All (λ x. e x ≡ true) xs → last_name e f xs ≡ f
unfolding last_name
last_name-extras e f [] h = refl
last_name-extras e f (x ∷ xs) h = rw h.0 (last_name-extras e f xs h.1)

last_name-name :
    (e : Text → Bool) (f p : Text) (xs : List Text)
    → e p ≡ false
    → All (λ x. e x ≡ true) xs
    → last_name e f (p ∷ xs) ≡ p
unfolding last_name
last_name-name e f p xs n h = rw n (last_name-extras e p xs h)

join-cons :
    (p q : Text) (ps : List Text)
    → join (codes "|") (p ∷ q ∷ ps) ≡ p ++ 124 ∷ join (codes "|") (q ∷ ps)
unfolding join
join-cons p q ps = append_assoc p (124 ∷ []) (join (codes "|") (q ∷ ps))

-- The last name in a joined list whose parts have no bars, but for one text in front.
pieces-join :
    (p : Text) (ps : List Text)
    → All HasNoBar (p ∷ ps)
    → pieces [] (join (codes "|") (p ∷ ps)) ≡ p ∷ ps
unfolding join
pieces-join p [] h = pieces-plain [] p h.0
pieces-join p (q ∷ ps) h =
    ap (pieces []) (join-cons p q ps)
    ∙ pieces-bar [] p (join (codes "|") (q ∷ ps))
    ∙ ap (λ l. l ++ pieces [] (join (codes "|") (q ∷ ps))) (pieces-plain [] p h.0)
    ∙ ap (λ l. p ∷ l) (pieces-join q ps h.1)

last_name-bar :
    (e : Text → Bool) (f a b : Text)
    → last_name e f (pieces [] (a ++ 124 ∷ b))
      ≡ last_name e (last_name e f (pieces [] a)) (pieces [] b)
last_name-bar e f a b =
    ap (last_name e f) (pieces-bar [] a b) ∙ last_name-append e f (pieces [] a) (pieces [] b)

module _ (format_time : ℕ → Text) (is_extra : Text → Bool) where
  -- The parts after the tenant's name can be told from a name, and have no bars.
  pub record IsMarked (r : Request) : Type 0 where
    pub marked : All (λ x. is_extra x ≡ true) (extras format_time r)
    pub plain : All HasNoBar (extras format_time r)

  -- A tenant's name that is not taken for an extra part.
  pub record IsName (tenant : Text) : Type 0 where
    pub plain : HasNoBar tenant
    pub is_no_extra : is_extra tenant ≡ false

  owner : Text → Text
  owner key = last_name is_extra [] (pieces [] key)

  owner-build_cache_key :
      (r : Request) (tenant : Text)
      → IsMarked r
      → IsName tenant
      → owner (build_cache_key format_time r tenant) ≡ tenant
  unfolding build_cache_key owner
  owner-build_cache_key r tenant m n =
      let tail = tenant ∷ extras format_time r in
      rw
        (
          join-cons (to_lower r.lang) r.query (r.template ∷ tail),
          join-cons r.query r.template tail,
          join-cons r.template tenant (extras format_time r),
          last_name-bar,
          last_name-bar,
          last_name-bar,
          pieces-join tenant (extras format_time r) (n.plain, m.plain),
        )
        (last_name-name is_extra _ tenant (extras format_time r) n.is_no_extra m.marked)

  -- Where neither the names of two tenants nor the extra parts of their keys hold a bar `|`, the
  -- separator, and where the extra parts can be told from the names, requests of the two never share a
  -- key, whatever their queries and templates hold, bars included: equal keys have equal tenants.
  pub build_cache_key-tenant :
      (r s : Request) (t u : Text)
      → IsMarked r
      → IsMarked s
      → IsName t
      → IsName u
      → build_cache_key format_time r t ≡ build_cache_key format_time s u
      → t ≡ u
  build_cache_key-tenant r s t u mr ms nt nu same =
      sym (owner-build_cache_key r t mr nt) ∙ ap owner same ∙ owner-build_cache_key s u ms nu
