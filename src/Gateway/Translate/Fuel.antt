-- ===== src/Gateway/Translate/Fuel.antt =====
-- The bounds of the loops in the translation are enough, and what the names of fields let through
-- (observe-gateway/internal/backend/client.go).
use mathlib.Core.Path.{subst}
use x_scope_hub_svc_plus.Prelude.{
  ℕ, zero, suc, ◌+◌, ◌≤◌, ◌<◌, ◌≡◌, refl, ap, inl, inr, none, some, List, [], ◌∷◌, ◌==◌, length,
  if◌then◌else◌, arith, Bool-cases, Option-cases,
}
use x_scope_hub_svc_plus.Prelude.Text.{
  Text, codes, after_prefix, cut, split_up_to, trim, trim_left, trim_right, trim_space, is_space,
}
use x_scope_hub_svc_plus.Gateway.Translate.Sql.{underscores, sanitize_identifier}
use x_scope_hub_svc_plus.Gateway.Translate.Logql.{
  skip_spaces, until_mark, quoted, operator, match_stage, find_stages,
}

length-after_prefix : (p s r : Text) → after_prefix p s ≡ some r → length p + length r ≡ length s
unfolding after_prefix
length-after_prefix [] s r h = ground arith
length-after_prefix (c ∷ p) [] r h = absurd (ground arith)
length-after_prefix (c ∷ p) (d ∷ s) r h = ground (arith, length-after_prefix p s r)

length-cut : (x : ℕ) (sep s a b : Text) → cut (x ∷ sep) s ≡ some (a, b) → length b < length s
unfolding cut
length-cut x sep [] a b h = absurd (ground arith)
length-cut x sep (c ∷ s) a b h = elim (Option-cases (after_prefix (x ∷ sep) (c ∷ s))) [
  | inr (r, found) ↦
      let same : r ≡ b = cc (rw (found, cut) at h) in
      let long = length-after_prefix (x ∷ sep) (c ∷ s) r found in
      subst (λ (k : Text). length k < suc (length s)) same (omega arith)
  | inl here ↦ elim (Option-cases (cut (x ∷ sep) s)) [
    | inl nowhere ↦ absurd (cc (rw (here, nowhere, cut) at h))
    | inr (p, found) ↦
        let same : p.1 ≡ b = cc (rw (here, found, cut) at h) in
        let shorter = length-cut x sep s p.0 p.1 found in
        subst (λ (k : Text). length k < suc (length s)) same (omega arith)
  ]
]

length-until_mark : (s a b : Text) → until_mark s ≡ some (a, b) → length b < length s
unfolding until_mark
length-until_mark [] a b h = absurd (ground arith)
length-until_mark (c ∷ s) a b h = elim (Bool-cases (c == 34)) [
  | inl mark ↦
      let same : s ≡ b = cc (rw (mark, until_mark) at h) in
      subst (λ (k : Text). length k < suc (length s)) same (omega arith)
  | inr other ↦ elim (Option-cases (until_mark s)) [
    | inl nowhere ↦ absurd (cc (rw (other, nowhere, until_mark) at h))
    | inr (p, found) ↦
        let same : p.1 ≡ b = cc (rw (other, found, until_mark) at h) in
        let shorter = length-until_mark s p.0 p.1 found in
        subst (λ (k : Text). length k < suc (length s)) same (omega arith)
  ]
]

length-skip_spaces : (s : Text) → length (skip_spaces s) ≤ length s
unfolding skip_spaces
length-skip_spaces [] = omega arith
length-skip_spaces (c ∷ s) = ground (arith, length-skip_spaces s)

length-operator : (s op t : Text) → operator s ≡ some (op, t) → length t < length s
unfolding operator
length-operator [] op t h = absurd (ground arith)
length-operator (c ∷ []) op t h = ground arith
length-operator (c ∷ d ∷ s) op t h = ground arith

length-quoted : (s val rest : Text) → quoted s ≡ some (val, rest) → length rest ≤ length s
unfolding quoted
length-quoted s val rest h = from_skipped (skip_spaces s) (length-skip_spaces s) h
  where
    from_skipped :
        (u : Text)
        → length u ≤ length s
        → (elim u [ [] ↦ none | c ∷ t ↦ if c == 34 then until_mark t else none ]) ≡ some (val, rest)
        → length rest ≤ length s
    from_skipped [] k e = absurd (ground arith)
    from_skipped (c ∷ t) k e = elim (Bool-cases (c == 34)) [
      | inl mark ↦ let shorter = length-until_mark t val rest (rw mark at e) in omega arith
      | inr other ↦ absurd (cc (rw other at e))
    ]

length-match_stage :
    (s op val rest : Text) → match_stage s ≡ some (op, val, rest) → length rest < length s
unfolding match_stage
length-match_stage s op val rest h = elim (Option-cases (operator s)) [
  | inl nowhere ↦ absurd (cc (rw (nowhere, match_stage) at h))
  | inr (p, found) ↦ elim (Option-cases (quoted p.1)) [
    | inl unclosed ↦ absurd (cc (rw (found, unclosed, match_stage) at h))
    | inr (q, closed) ↦
        let same : q.1 ≡ rest = cc (rw (found, closed, match_stage) at h) in
        let tail = length-operator s p.0 p.1 found in
        let shorter = length-quoted p.1 q.0 q.1 closed in
        subst (λ (k : Text). length k < length s) same (omega arith)
  ]
]

-- With at least as many steps as there are bytes, the stages found do not depend on the number of
-- steps.
pub find_stages-enough :
    (n m : ℕ) (s : Text) → length s ≤ n → length s ≤ m → find_stages n s ≡ find_stages m s
unfolding find_stages
find_stages-enough zero zero s h k = refl
find_stages-enough zero (suc m) [] h k = refl
find_stages-enough (suc n) zero [] h k = refl
find_stages-enough (suc n) (suc m) [] h k = refl
find_stages-enough zero (suc m) (c ∷ s) h k = absurd (omega arith)
find_stages-enough (suc n) zero (c ∷ s) h k = absurd (omega arith)
find_stages-enough (suc n) (suc m) (c ∷ s) h k =
    let skip = find_stages-enough n m s (omega arith) (omega arith) in
    elim (Bool-cases (c == b'|')) [
      | inr other ↦ rw (other, find_stages) skip
      | inl bar ↦ elim (Option-cases (match_stage s)) [
        | inl nowhere ↦ rw (bar, nowhere, find_stages) skip
        | inr ((op, val, rest), found) ↦
            let shorter = length-match_stage s op val rest found in
            rw (bar, found, find_stages)
              (ap (λ (l : List (Text × Text)). (op, val) ∷ l)
                (find_stages-enough n m rest (omega arith) (omega arith)))
      ]
    ]

-- With at least as many cuts as there are bytes, the parts do not depend on the number of cuts.
pub split_up_to-enough :
    (x : ℕ) (sep : Text) (n m : ℕ) (s : Text)
    → length s ≤ n
    → length s ≤ m
    → split_up_to n (x ∷ sep) s ≡ split_up_to m (x ∷ sep) s
unfolding split_up_to
split_up_to-enough x sep zero zero s h k = refl
split_up_to-enough x sep zero (suc m) [] h k = unfold cut in refl
split_up_to-enough x sep (suc n) zero [] h k = unfold cut in refl
split_up_to-enough x sep zero (suc m) (c ∷ s) h k = absurd (omega arith)
split_up_to-enough x sep (suc n) zero (c ∷ s) h k = absurd (omega arith)
split_up_to-enough x sep (suc n) (suc m) s h k = elim (Option-cases (cut (x ∷ sep) s)) [
  | inl nowhere ↦ rw (nowhere, split_up_to)
  | inr ((a, b), found) ↦
      let shorter = length-cut x sep s a b found in
      rw (found, split_up_to)
        (ap (λ (l : List Text). a ∷ l) (split_up_to-enough x sep n m b (omega arith) (omega arith)))
]

-- A quote in the middle of a name comes through the sanitiser.
pub sanitize_identifier-inner_quote : sanitize_identifier (codes "a'b") ≡ codes "a'b"
unfolding sanitize_identifier trim trim_left trim_right trim_space is_space underscores
sanitize_identifier-inner_quote = refl
