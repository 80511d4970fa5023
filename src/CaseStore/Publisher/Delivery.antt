-- ===== src/CaseStore/Publisher/Delivery.antt =====
-- What the outbox publisher delivers (llm-ops-agent/internal/outbox/publisher.go).
use mathlib.Core.List.{map-append}
use x_scope_hub_svc_plus.Prelude.{
  ℕ, suc, String, ◌++◌, append-nil, append_assoc, sym, ◌*◌, ◌+◌, ◌≡◌, refl, ap, ◌⊎◌, inl, inr, Bool,
  true, false, not, ◌||◌, List, [], ◌∷◌, map, take, drop, take-add, drop-add, ◌∙◌, length, All,
  is_empty, arith, Bool-cases,
}
use x_scope_hub_svc_plus.CaseStore.Tables.{OutboxRow, Db}
use x_scope_hub_svc_plus.CaseStore.Session.{Commit, committed, rolled_back, answer_lost}
use x_scope_hub_svc_plus.CaseStore.Publisher.{
  Round, Connection, batch, message, row_id, unpublished, mark, publish_all, flush_rows, flush,
  flushes,
}
use x_scope_hub_svc_plus.CaseStore.Publisher.Marks.{
  HasDistinctIds, mark-nil, unpublished-mark, mark-HasDistinctIds,
}

-- A round in which nothing fails.
pub record IsClean (env : Round) : Type 0 where
  pub begins : env.begin_fails ≡ false
  pub lists : env.list_fails ≡ false
  pub publishes : (k : ℕ) → env.publish_fails k ≡ false
  pub marks : env.mark_fails ≡ false
  pub commits : env.commit ≡ committed
  pub flushes_out : env.flush_fails ≡ false

Commit-cases : (c : Commit) → ((c ≡ committed) ⊎ (c ≡ answer_lost)) ⊎ (c ≡ rolled_back)
Commit-cases committed = inl (inl refl)
Commit-cases answer_lost = inl (inr refl)
Commit-cases rolled_back = inr refl

List-cases : {A : Type 0} (xs : List A) → (xs ≡ []) ⊎ (is_empty xs ≡ false)
List-cases [] = inl refl
List-cases (x ∷ xs) = inr refl

module _ {Json : Type 0} where
  publish_all-done :
      (fails : ℕ → Bool) (rows : List (OutboxRow Json))
      → (publish_all fails rows).1 ≡ true
      → (publish_all fails rows).0 ≡ map message rows
  unfolding publish_all
  publish_all-done fails [] h = refl
  publish_all-done fails (r ∷ rs) h = ground (arith, publish_all-done fails rs)

  -- What a round that marks its rows has done.
  pub record IsSettled (env : Round) (rows : List (OutboxRow Json))
      (nc : Connection (String × Json)) (db : Db Json)
      (after : Connection (String × Json) × Db Json) : Type 0 where
    pub marked : after.1 ≡ record db { outbox = mark (map row_id rows) db.outbox }
    pub flushed :
        env.flush_fails ≡ false
        → after.0
          ≡ record { pending = []; delivered = nc.delivered ++ (nc.pending ++ map message rows) }
    pub lost :
        env.flush_fails ≡ true
        → after.0 ≡ record { pending = nc.pending ++ map message rows; delivered = nc.delivered }

  flush_rows_cases :
      (env : Round) (rows : List (OutboxRow Json)) (nc : Connection (String × Json)) (db : Db Json)
      → ((flush_rows env rows nc db).1 ≡ db) ⊎ IsSettled env rows nc db (flush_rows env rows nc db)
  unfolding flush_rows
  flush_rows_cases env rows nc db =
      elim (Bool-cases
        (is_empty rows || not (publish_all env.publish_fails rows).1 || env.mark_fails)) [
          | inl stays ↦ inl (ground arith)
          | inr goes ↦ elim (Commit-cases env.commit) [
            | inr undone ↦ inl (ground arith)
            | inl kept ↦ inr (record {
              marked = ground arith;
              flushed = λ works. ground (arith, publish_all-done env.publish_fails rows);
              lost = λ fails. ground (arith, publish_all-done env.publish_fails rows);
            })
          ]
        ]

  -- A round either leaves the outbox as it was, or it has handed the message of every row of the oldest
  -- ten that waited to the connection, in their order, and marked those rows and no others; then, where
  -- Flush does not fail, the broker has these messages, after all that waited in the connection, and
  -- where it fails they wait there, although their rows are marked.
  pub flush_cases :
      (env : Round) (nc : Connection (String × Json)) (db : Db Json)
      → ((flush env nc db).1 ≡ db)
        ⊎ IsSettled env (take batch (unpublished db.outbox)) nc db (flush env nc db)
  unfolding flush
  flush_cases env nc db = elim (Bool-cases (env.begin_fails || env.list_fails)) [
    | inl stops ↦ inl (rw stops refl)
    | inr goes ↦ rw goes (flush_rows_cases env (take batch (unpublished db.outbox)) nc db)
  ]

  publish_all-clean :
      (fails : ℕ → Bool) (rows : List (OutboxRow Json))
      → ((k : ℕ) → fails k ≡ false)
      → publish_all fails rows ≡ (map message rows, true)
  unfolding publish_all
  publish_all-clean fails [] h = refl
  publish_all-clean fails (r ∷ rs) h = ground (arith, h r.id, publish_all-clean fails rs h)

  flush_rows-clean :
      (env : Round) (rows : List (OutboxRow Json)) (nc : Connection (String × Json)) (db : Db Json)
      → IsClean env
      → nc.pending ≡ []
      → ((flush_rows env rows nc db).0.delivered ≡ nc.delivered ++ map message rows)
        × ((flush_rows env rows nc db).0.pending ≡ [])
        × ((flush_rows env rows nc db).1.outbox ≡ mark (map row_id rows) db.outbox)
  unfolding flush_rows
  flush_rows-clean env [] nc db c empty =
      (sym (append-nil nc.delivered), empty, sym (mark-nil db.outbox))
  flush_rows-clean env (r ∷ rows) nc db c empty =
      rw
        (
          publish_all-clean env.publish_fails (r ∷ rows) c.publishes,
          c.marks,
          c.flushes_out,
          c.commits,
          empty,
        )
        (refl, refl, refl)

  flush-clean :
      (env : Round) (nc : Connection (String × Json)) (db : Db Json)
      → IsClean env
      → nc.pending ≡ []
      → ((flush env nc db).0.delivered
          ≡ nc.delivered ++ map message (take batch (unpublished db.outbox)))
        × ((flush env nc db).0.pending ≡ [])
        × ((flush env nc db).1.outbox
            ≡ mark (map row_id (take batch (unpublished db.outbox))) db.outbox)
  unfolding flush
  flush-clean env nc db c empty =
      rw (c.begins, c.lists)
        (flush_rows-clean env (take batch (unpublished db.outbox)) nc db c empty)

  -- Without failures the publisher drains the outbox: n rounds over a connection whose buffer is empty
  -- deliver to the broker the messages of the oldest 10·n rows that wait, each once and in the order of
  -- the outbox, leave nothing in the buffer, and leave the other rows waiting.
  pub flushes-drain :
      (envs : List Round) (nc : Connection (String × Json)) (db : Db Json)
      → All IsClean envs
      → HasDistinctIds db.outbox
      → nc.pending ≡ []
      → ((flushes envs nc db).0.delivered
          ≡ nc.delivered ++ map message (take (length envs * batch) (unpublished db.outbox)))
        × ((flushes envs nc db).0.pending ≡ [])
        × (unpublished (flushes envs nc db).1.outbox
            ≡ drop (length envs * batch) (unpublished db.outbox))
  unfolding flushes
  flushes-drain [] nc db cs h empty = (sym (append-nil nc.delivered), empty, refl)
  flushes-drain (env ∷ envs) nc db cs h empty =
      let (sent, emptied, wrote) = flush-clean env nc db cs.0 empty in
      let left = ap unpublished wrote ∙ unpublished-mark batch db.outbox h in
      let rounds : suc (length envs) * batch ≡ batch + length envs * batch = omega arith in
      let (more, clear, rest) =
        flushes-drain envs (flush env nc db).0 (flush env nc db).1 cs.1
          (rw wrote (mark-HasDistinctIds _ db.outbox h)) emptied in
      (
        rw (rounds, take-add, map-append, more, sent, left) (append_assoc nc.delivered _ _),
        clear,
        rw (rounds, drop-add, rest, left),
      )
