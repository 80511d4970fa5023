-- ===== src/CaseStore/Publisher/Marks.antt =====
-- The rows that wait in the outbox, after some were marked
-- (llm-ops-agent/internal/outbox/publisher.go).
use x_scope_hub_svc_plus.Prelude.{
  ℕ, zero, suc, ◌≡◌, refl, ap, ◌≢◌, inl, inr, true, false, ◌||◌, List, [], ◌∷◌, map, take, drop,
  All, arith, Bool-cases, if◌then◌else◌,
}
use x_scope_hub_svc_plus.CaseStore.Tables.{OutboxRow}
use x_scope_hub_svc_plus.CaseStore.Publisher.{contains, row_id, unpublished, mark}

module _ {Json : Type 0} where
  -- The ids of a table are distinct.
  abbrev pub HasDistinctIds : List (OutboxRow Json) → Type 0
  HasDistinctIds [] = Unit
  HasDistinctIds (r ∷ rs) = All (λ s. s.id ≢ r.id) rs × HasDistinctIds rs

  mark-skip :
      (k : ℕ) (ids : List ℕ) (rs : List (OutboxRow Json))
      → All (λ s. s.id ≢ k) rs
      → mark (k ∷ ids) rs ≡ mark ids rs
  unfolding mark
  mark-skip k ids [] h = refl
  mark-skip k ids (r ∷ rs) h = ground (arith, mark-skip k ids rs h.1)

  pub mark-nil : (rs : List (OutboxRow Json)) → mark [] rs ≡ rs
  unfolding mark
  mark-nil [] = refl
  mark-nil (r ∷ rs) = rw (mark-nil rs)

  module _ (r : OutboxRow Json) (rs : List (OutboxRow Json)) where
    unpublished-cons_sent : r.published ≡ true → unpublished (r ∷ rs) ≡ unpublished rs
    unfolding unpublished
    unpublished-cons_sent h = rw h

    unpublished-cons_waiting : r.published ≡ false → unpublished (r ∷ rs) ≡ r ∷ unpublished rs
    unfolding unpublished
    unpublished-cons_waiting h = ground arith

    unpublished-mark-cons :
        (ids : List ℕ)
        → unpublished (mark ids (r ∷ rs)) ≡ (
            if r.published || contains r.id ids
            then unpublished (mark ids rs)
            else r ∷ unpublished (mark ids rs))
    unfolding unpublished mark
    unpublished-mark-cons ids = ground arith

  oldest_marked :
      (n : ℕ) (r : OutboxRow Json) (rs : List (OutboxRow Json))
      → r.published ≡ false
      → HasDistinctIds (r ∷ rs)
      → unpublished (mark (map row_id (take n (unpublished rs))) rs) ≡ drop n (unpublished rs)
      → unpublished (mark (map row_id (take (suc n) (r ∷ unpublished rs))) (r ∷ rs))
        ≡ drop n (unpublished rs)
  oldest_marked n r rs waits h ih = ground (
    arith,
    unpublished-mark-cons r rs (r.id ∷ map row_id (take n (unpublished rs))),
    mark-skip r.id (map row_id (take n (unpublished rs))) rs h.0,
  )

  pub unpublished-mark :
      (n : ℕ) (rs : List (OutboxRow Json))
      → HasDistinctIds rs
      → unpublished (mark (map row_id (take n (unpublished rs))) rs) ≡ drop n (unpublished rs)
  unpublished-mark zero rs h = ap unpublished (mark-nil rs)
  unpublished-mark (suc n) [] h = unfold unpublished mark in refl
  unpublished-mark (suc n) (r ∷ rs) h = elim (Bool-cases r.published) [
    | inl sent ↦ ground (
      arith,
      unpublished-cons_sent r rs sent,
      unpublished-mark-cons r rs (map row_id (take (suc n) (unpublished rs))),
      unpublished-mark (suc n) rs h.1,
    )
    | inr waits ↦
        rw (unpublished-cons_waiting r rs waits)
          (oldest_marked n r rs waits h (unpublished-mark n rs h.1))
  ]

  mark-keeps_ids :
      (k : ℕ) (ids : List ℕ) (rs : List (OutboxRow Json))
      → All (λ s. s.id ≢ k) rs
      → All (λ s. s.id ≢ k) (mark ids rs)
  unfolding mark
  mark-keeps_ids k ids [] h = tt
  mark-keeps_ids k ids (r ∷ rs) h = elim (Bool-cases (contains r.id ids)) [
    | inl hit ↦ rw hit (h.0, mark-keeps_ids k ids rs h.1)
    | inr miss ↦ rw miss (h.0, mark-keeps_ids k ids rs h.1)
  ]

  pub mark-HasDistinctIds :
      (ids : List ℕ) (rs : List (OutboxRow Json)) → HasDistinctIds rs → HasDistinctIds (mark ids rs)
  unfolding mark
  mark-HasDistinctIds ids [] h = tt
  mark-HasDistinctIds ids (r ∷ rs) h = elim (Bool-cases (contains r.id ids)) [
    | inl hit ↦ rw hit (mark-keeps_ids r.id ids rs h.0, mark-HasDistinctIds ids rs h.1)
    | inr miss ↦ rw miss (mark-keeps_ids r.id ids rs h.0, mark-HasDistinctIds ids rs h.1)
  ]
