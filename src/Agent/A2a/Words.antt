-- ===== src/Agent/A2a/Words.antt =====
-- The words that decide who answers a request (llm-ops-agent/api/a2a.go).
use x_scope_hub_svc_plus.Prelude.{
  ℕ, ◌≡◌, ◌≢◌, refl, ap, sym, ◌∙◌, true, false, none, some, List, [], ◌∷◌, ◌++◌, All, is_empty,
  arith, Bool-cases, Option-cases, ◌⊎◌, inl, inr,
}
use x_scope_hub_svc_plus.Prelude.Text.{Text, codes, after_prefix, cut, text_eq}
use x_scope_hub_svc_plus.Agent.A2a.{
  A2aRequest, needs_input, declined, completed, contains, contains_any, change_words, command_words,
  request_text, outcome, response, evaluate_observability_request, task_record,
}

-- The word stands somewhere in the text.
abbrev pub Occurs : Text → Text → Type 0
Occurs word text = (before : Text) × (after : Text) × (text ≡ before ++ word ++ after)

pub data OneOccurs (text : Text) : List Text → Type 0 where
  here : {word : Text} {words : List Text} → Occurs word text → OneOccurs text (word ∷ words)
  there : {word : Text} {words : List Text} → OneOccurs text words → OneOccurs text (word ∷ words)

abbrev pub NoneOccurs : Text → List Text → Type 0
NoneOccurs text words = All (λ (word : Text). ¬ Occurs word text) words

after_prefix_sound : (p s r : Text) → after_prefix p s ≡ some r → s ≡ p ++ r
unfolding after_prefix
after_prefix_sound [] s r h = ground arith
after_prefix_sound (c ∷ p) [] r h = absurd (ground arith)
after_prefix_sound (c ∷ p) (d ∷ s) r h = ground (arith, after_prefix_sound p s r)

after_prefix-append : (p r : Text) → after_prefix p (p ++ r) ≡ some r
unfolding after_prefix
after_prefix-append [] r = refl
after_prefix-append (c ∷ p) r = ground (arith, after_prefix-append p r)

cut_sound : (sep s b a : Text) → cut sep s ≡ some (b, a) → s ≡ b ++ sep ++ a
unfolding cut
cut_sound sep [] b a h = absurd (ground arith)
cut_sound sep (c ∷ s) b a h = elim (Option-cases (after_prefix sep (c ∷ s))) [
  | inr (rest, found) ↦ ground (arith, after_prefix_sound sep (c ∷ s) rest found)
  | inl not_here ↦ elim (Option-cases (cut sep s)) [
    | inl none_at_all ↦ absurd (ground arith)
    | inr (p, later) ↦ ground (arith, cut_sound sep s p.0 p.1)
  ]
]

cut_complete : (c : ℕ) (sep b a : Text) → cut (c ∷ sep) (b ++ (c ∷ sep) ++ a) ≢ none
unfolding cut
cut_complete c sep [] a h = ground (arith, after_prefix-append (c ∷ sep) a)
cut_complete c sep (d ∷ b) a h = ground (arith, cut_complete c sep b a)

contains-Occurs : (text word : Text) → contains text word ≡ true → Occurs word text
unfolding contains
contains-Occurs text word h = elim (Option-cases (cut word text)) [
  | inl nowhere ↦ absurd (ground arith)
  | inr (p, found) ↦ (p.0, p.1, cut_sound word text p.0 p.1 found)
]

Occurs-contains :
    (text word : Text) → is_empty word ≡ false → contains text word ≡ false → ¬ Occurs word text
unfolding contains
Occurs-contains text [] named h occurs = absurd (ground arith)
Occurs-contains text (c ∷ word) named h (b, a, e) = elim (Option-cases (cut (c ∷ word) text)) [
  | inl nowhere ↦ cut_complete c word b a (ap (cut (c ∷ word)) (sym e) ∙ nowhere)
  | inr (p, found) ↦ ground arith
]

contains_any-OneOccurs :
    (text : Text) (words : List Text) → contains_any text words ≡ true → OneOccurs text words
unfolding contains_any
contains_any-OneOccurs text [] h = absurd (ground arith)
contains_any-OneOccurs text (w ∷ words) h = elim (Bool-cases (contains text w)) [
  | inl found ↦ here (contains-Occurs text w found)
  | inr missed ↦ there (contains_any-OneOccurs text words (rw missed at h))
]

contains_any-NoneOccurs :
    (text : Text) (words : List Text)
    → All (λ (w : Text). is_empty w ≡ false) words
    → contains_any text words ≡ false
    → NoneOccurs text words
unfolding contains_any
contains_any-NoneOccurs text [] named h = tt
contains_any-NoneOccurs text (w ∷ words) named h = elim (Bool-cases (contains text w)) [
  | inl found ↦ absurd (ground arith)
  | inr missed ↦ (
    Occurs-contains text w named.0 missed,
    contains_any-NoneOccurs text words named.1 (rw missed at h),
  )
]

commands_named : All (λ (w : Text). is_empty w ≡ false) command_words
commands_named = (refl, (refl, (refl, (refl, (refl, tt)))))

changes_named : All (λ (w : Text). is_empty w ≡ false) change_words
changes_named = (refl, (refl, (refl, (refl, (refl, (refl, tt))))))

-- The words of the two lists, in the text of a request.
abbrev pub IsObservability : A2aRequest → Type 0
IsObservability req =
    NoneOccurs (request_text req) command_words × NoneOccurs (request_text req) change_words

abbrev pub IsChange : A2aRequest → Type 0
IsChange req =
    NoneOccurs (request_text req) command_words × OneOccurs (request_text req) change_words

-- A task is completed by the observability agent itself, with its evidence, where no word of command
-- and no word of change occurs in the intent and the goal, their letter case apart; it waits for
-- input, with the automation agent to turn to, where a word of change but none of command does; and
-- it is declined, with the operations agent to turn to, where a word of command does.
pub task_record-words :
    (task_id : Text) (now : ℕ) (req : A2aRequest)
    → (IsObservability req
        × ((task_record task_id now req).status ≡ completed)
        × ((task_record task_id now req).result.deliverable
            ≡ some (codes "observability_evidence")))
      ⊎ ((IsChange req
            × ((task_record task_id now req).status ≡ needs_input)
            × ((task_record task_id now req).result.handoff_agent_id
                ≡ some (codes "x-automation-agent")))
          ⊎ (OneOccurs (request_text req) command_words
              × ((task_record task_id now req).status ≡ declined)
              × ((task_record task_id now req).result.handoff_agent_id
                  ≡ some (codes "xops-agent"))))
unfolding task_record evaluate_observability_request response outcome text_eq
task_record-words task_id now req =
    elim (Bool-cases (contains_any (request_text req) command_words)) [
      | inl command ↦
          inr (inr (contains_any-OneOccurs _ _ command, rw command refl, rw command refl))
      | inr no_command ↦ elim (Bool-cases (contains_any (request_text req) change_words)) [
        | inl change ↦ inr (
            inl (
              (
                contains_any-NoneOccurs _ command_words commands_named no_command,
                contains_any-OneOccurs _ _ change,
              ),
              rw (no_command, change) refl,
              rw (no_command, change) refl,
            ))
        | inr no_change ↦ inl (
          (
            contains_any-NoneOccurs _ command_words commands_named no_command,
            contains_any-NoneOccurs _ change_words changes_named no_change,
          ),
          rw (no_command, no_change) refl,
          rw (no_command, no_change) refl,
        )
      ]
    ]
