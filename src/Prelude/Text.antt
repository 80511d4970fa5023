-- ===== src/Prelude/Text.antt =====
-- Go strings as their bytes, with the functions of package strings that the gateway calls.
-- White space and letter case are those of ASCII. A separator is not empty.
use Prim.Native.Nat.{ℕ, zero, suc, ◌+◌}
use Prim.Native.Char.{code}
use Prim.Native.String.{String}
use mathlib.Core.Bool.{Bool, true, false, not, ◌&&◌, ◌||◌}
use mathlib.Core.List.{List, [], ◌∷◌, ◌++◌}
use mathlib.Core.Option.{Option, none, some}
use x_scope_hub_svc_plus.Prelude.Tests.{leb, ◌==◌, if◌then◌else◌}
use x_scope_hub_svc_plus.Prelude.Lists.{is_empty, length}

abbrev pub Text : Type 0
Text = List ℕ

-- The bytes of an ASCII literal.
abbrev pub codes : String → Text
codes String.[] = []
codes (String.◌∷◌ c s) = code c ∷ codes s

unfoldable pub is_space : ℕ → Bool
is_space c = (leb 9 c && leb c 13) || c == 32

unfoldable pub to_lower_byte : ℕ → ℕ
to_lower_byte c = if leb b'A' c && leb c b'Z' then c + 32 else c

-- strings.ToLower
unfoldable pub to_lower : Text → Text
unfolding to_lower_byte
to_lower [] = []
to_lower (c ∷ s) = to_lower_byte c ∷ to_lower s

unfoldable pub trim_left : (ℕ → Bool) → Text → Text
trim_left p [] = []
trim_left p (c ∷ s) = if p c then trim_left p s else c ∷ s

unfoldable pub trim_right : (ℕ → Bool) → Text → Text
trim_right p [] = []
trim_right p (c ∷ s) = let r = trim_right p s in if p c && is_empty r then [] else c ∷ r

-- strings.Trim, with the set of bytes as a test
unfoldable pub trim : (ℕ → Bool) → Text → Text
unfolding trim_left trim_right
trim p s = trim_right p (trim_left p s)

-- strings.TrimSpace
unfoldable pub trim_space : Text → Text
unfolding trim is_space
trim_space s = trim is_space s

unfoldable pub text_eq : Text → Text → Bool
text_eq [] [] = true
text_eq [] (c ∷ s) = false
text_eq (c ∷ s) [] = false
text_eq (c ∷ s) (d ∷ t) = c == d && text_eq s t

-- What follows a prefix, if the text has it; HasPrefix and TrimPrefix at once.
unfoldable pub after_prefix : Text → Text → Option Text
after_prefix [] s = some s
after_prefix (c ∷ p) [] = none
after_prefix (c ∷ p) (d ∷ s) = if c == d then after_prefix p s else none

-- The text before and after the first occurrence of a separator: Index, Contains and SplitN(…, 2).
unfoldable pub cut : Text → Text → Option (Text × Text)
unfolding after_prefix
cut sep [] = none
cut sep (c ∷ s) = elim (after_prefix sep (c ∷ s)) [
  | some rest ↦ some ([], rest)
  | none ↦ elim (cut sep s) [ none ↦ none | some p ↦ some (c ∷ p.0, p.1) ]
]

-- strings.Split, with the number of cuts that are still allowed.
unfoldable pub split_up_to : ℕ → Text → Text → List Text
unfolding cut
split_up_to zero sep s = s ∷ []
split_up_to (suc n) sep s = elim (cut sep s) [
  | none ↦ s ∷ []
  | some (before, after) ↦ before ∷ split_up_to n sep after
]

-- Each cut takes a byte at least, so the length is enough.
unfoldable pub split : Text → Text → List Text
unfolding split_up_to
split sep s = split_up_to (length s) sep s

-- strings.Join
unfoldable pub join : Text → List Text → Text
join sep [] = []
join sep (t ∷ []) = t
join sep (t ∷ u ∷ ts) = t ++ sep ++ join sep (u ∷ ts)

-- strings.Fields, with the word that is being read.
unfoldable pub words_from : Text → Text → List Text
unfolding is_space
words_from word [] = if is_empty word then [] else word ∷ []
words_from word (c ∷ s) =
    let rest = words_from (if is_space c then [] else word ++ c ∷ []) s in
    if is_space c && not (is_empty word) then word ∷ rest else rest

unfoldable pub fields : Text → List Text
unfolding words_from
fields s = words_from [] s
