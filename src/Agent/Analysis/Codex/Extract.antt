-- ===== src/Agent/Analysis/Codex/Extract.antt =====
-- The JSON object in an output (llm-ops-agent/internal/analysis/service.go, extractJSONObject).
use x_scope_hub_svc_plus.Prelude.{
  ℕ, ◌≡◌, ◌≢◌, refl, ap, sym, ◌∙◌, Bool, false, ◌&&◌, none, some, [], ◌∷◌, ◌++◌, append_assoc, All,
  is_empty, arith, Bool-cases, inl, inr,
}
use x_scope_hub_svc_plus.Prelude.Text.{Text, is_space, trim_left, trim_right, trim, trim_space}
use x_scope_hub_svc_plus.Agent.Analysis.Gateway.{got}
use x_scope_hub_svc_plus.Agent.Analysis.Codex.{from_open, up_to_close, extract_json_object}

-- The byte does not stand in the text.
abbrev pub Lacks : ℕ → Text → Type 0
Lacks b s = All (λ (c : ℕ). c ≢ b) s

module _ (p : ℕ → Bool) where
  trim_left-stop :
      (s : Text) (c : ℕ) (t : Text)
      → p c ≡ false
      → trim_left p (s ++ c ∷ t) ≡ trim_left p s ++ c ∷ t
  unfolding trim_left
  trim_left-stop [] c t h = rw h
  trim_left-stop (d ∷ s) c t h = ground (arith, trim_left-stop s c t h)

  trim_right-stop :
      (s : Text) (c : ℕ) (t : Text)
      → p c ≡ false
      → trim_right p (s ++ c ∷ t) ≡ s ++ c ∷ trim_right p t
  unfolding trim_right
  trim_right-stop [] c t h = rw h
  trim_right-stop (d ∷ []) c t h = ground (arith, trim_right-stop [] c t h)
  trim_right-stop (d ∷ e ∷ s) c t h = ground (arith, trim_right-stop (e ∷ s) c t h)

  trim_left-Lacks : (b : ℕ) (s : Text) → Lacks b s → Lacks b (trim_left p s)
  unfolding trim_left
  trim_left-Lacks b [] h = h
  trim_left-Lacks b (c ∷ s) h = elim (Bool-cases (p c)) [
    | inl skipped ↦ rw skipped (trim_left-Lacks b s h.1)
    | inr kept ↦ rw kept h
  ]

  trim_right-Lacks : (b : ℕ) (s : Text) → Lacks b s → Lacks b (trim_right p s)
  unfolding trim_right
  trim_right-Lacks b [] h = h
  trim_right-Lacks b (c ∷ s) h = elim (Bool-cases (p c && is_empty (trim_right p s))) [
    | inl skipped ↦ rw skipped tt
    | inr kept ↦ rw kept (h.0, trim_right-Lacks b s h.1)
  ]

from_open-Lacks : (s t : Text) → Lacks b'{' s → from_open (s ++ b'{' ∷ t) ≡ some (b'{' ∷ t)
unfolding from_open
from_open-Lacks [] t h = refl
from_open-Lacks (c ∷ s) t h = ground (arith, from_open-Lacks s t h.1, h.0)

up_to_close-Lacks : (s : Text) → Lacks b'}' s → up_to_close s ≡ none
unfolding up_to_close
up_to_close-Lacks [] h = refl
up_to_close-Lacks (c ∷ s) h = ground (arith, up_to_close-Lacks s h.1, h.0)

up_to_close-last : (s t : Text) → Lacks b'}' t → up_to_close (s ++ b'}' ∷ t) ≡ some (s ++ b'}' ∷ [])
unfolding up_to_close
up_to_close-last [] t h = rw (up_to_close-Lacks t h)
up_to_close-last (c ∷ s) t h = rw (up_to_close-last s t h)

-- A text around an object, between what stands before and after it.
abbrev around : Text → Text → Text → Text
around before body after = before ++ b'{' ∷ (body ++ b'}' ∷ after)

trim_space-around :
    (before body after : Text)
    → trim_space (around before body after)
      ≡ around (trim_left is_space before) body (trim_right is_space after)
unfolding trim_space trim
trim_space-around before body after =
    ap (trim_right is_space) (trim_left-stop is_space before b'{' (body ++ b'}' ∷ after) refl)
    ∙ ap (trim_right is_space)
        (sym (append_assoc (trim_left is_space before) (b'{' ∷ body) (b'}' ∷ after)))
    ∙ trim_right-stop is_space (trim_left is_space before ++ b'{' ∷ body) b'}' after refl
    ∙ append_assoc (trim_left is_space before) (b'{' ∷ body) (b'}' ∷ trim_right is_space after)

extract_json_object-found :
    (raw s t : Text)
    → from_open (trim_space raw) ≡ some s
    → up_to_close s ≡ some t
    → extract_json_object raw ≡ got t
unfolding extract_json_object
extract_json_object-found raw s t h k = ground arith

-- An object is found as it was printed, whatever braces it has inside, where no `{` stands in what is
-- printed before it and no `}` in what is printed after it.
pub extract_json_object-around :
    (before body after : Text)
    → Lacks b'{' before
    → Lacks b'}' after
    → extract_json_object (before ++ b'{' ∷ (body ++ b'}' ∷ after))
      ≡ got (b'{' ∷ (body ++ b'}' ∷ []))
extract_json_object-around before body after none_before none_after =
    extract_json_object-found (around before body after)
      (b'{' ∷ (body ++ b'}' ∷ trim_right is_space after)) (b'{' ∷ (body ++ b'}' ∷ []))
      (ap from_open (trim_space-around before body after)
        ∙ from_open-Lacks (trim_left is_space before) (body ++ b'}' ∷ trim_right is_space after)
            (trim_left-Lacks is_space b'{' before none_before))
      (up_to_close-last (b'{' ∷ body) (trim_right is_space after)
        (trim_right-Lacks is_space b'}' after none_after))
