-- ===== src/Agent/Numbers/Roundtrip.antt =====
-- A number that is printed is read again.
use x_scope_hub_svc_plus.Prelude.{
  ℕ, zero, suc, ◌+◌, ◌-◌, ◌*◌, ◌/◌, ◌%◌, ◌≤◌, ◌<◌, ◌≡◌, refl, sym, ap, ◌∙◌, inl, inr, [], ◌∷◌, ltb,
  arith, Bool-cases,
}
use x_scope_hub_svc_plus.Prelude.Text.{Text}
use x_scope_hub_svc_plus.Agent.Numbers.{
  two_to_63, two_to_64, number, digits_from, parse_uint, positive, parse_int, digits, decimal,
}

-- The digits begin with a digit.
digits-head :
    (f n : ℕ) (rest : Text)
    → n < f
    → (c : ℕ) × (s : Text) × (digits f n rest ≡ c ∷ s) × (b'0' ≤ c) × (c ≤ b'9')
unfolding digits
digits-head zero n rest h = absurd (omega arith)
digits-head (suc f) n rest h = elim (Bool-cases (ltb n 10)) [
  | inl last ↦ (b'0' + n % 10, rest, ground arith, omega arith, ground arith)
  | inr more ↦
      let (c, s, same, lo, hi) = digits-head f (n / 10) ((b'0' + n % 10) ∷ rest) (ground arith) in
      (c, s, ground arith, lo, hi)
]

digits_from-step :
    (m d : ℕ) (rest : Text)
    → d < 10
    → m * 10 + d < two_to_64
    → digits_from m ((b'0' + d) ∷ rest) ≡ digits_from (m * 10 + d) rest
unfolding digits_from
digits_from-step m d rest h b =
    let same : m * 10 + (b'0' + d - b'0') ≡ m * 10 + d = omega arith in rw same (ground arith)

digits_from-digits :
    (f n : ℕ) (rest : Text)
    → n < f
    → n < two_to_64
    → digits_from 0 (digits f n rest) ≡ digits_from n rest
unfolding digits
digits_from-digits zero n rest h b = absurd (omega arith)
digits_from-digits (suc f) n rest h b =
    let last : digits_from (n / 10) ((b'0' + n % 10) ∷ rest) ≡ digits_from n rest =
      let whole : n / 10 * 10 + n % 10 ≡ n = omega arith in
      digits_from-step (n / 10) (n % 10) rest (omega arith) (omega arith)
      ∙ ap (λ (k : ℕ). digits_from k rest) whole in
    elim (Bool-cases (ltb n 10)) [
      | inl small ↦
          let none_left : n / 10 ≡ 0 = ground arith in
          rw small (ap (λ (k : ℕ). digits_from k ((b'0' + n % 10) ∷ rest)) (sym none_left) ∙ last)
      | inr big ↦ rw big (
          digits_from-digits f (n / 10) ((b'0' + n % 10) ∷ rest) (ground arith) (ground arith)
          ∙ last)
    ]

-- A number below 2 ^ 63 is read as it was printed.
pub parse_int-decimal : (n : ℕ) → n < two_to_63 → parse_int (decimal n) ≡ n
unfolding decimal parse_int parse_uint positive
parse_int-decimal n h =
    let (c, s, same, lo, hi) = digits-head (suc n) n [] (omega arith) in
    let read : digits_from 0 (c ∷ s) ≡ number n =
      ap (digits_from 0) (sym same)
      ∙ digits_from-digits (suc n) n [] (omega arith) (omega arith)
      ∙ (unfold digits_from in refl) in
    rw same (ground (arith, read))
