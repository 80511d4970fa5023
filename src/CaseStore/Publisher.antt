-- ===== src/CaseStore/Publisher.antt =====
-- llm-ops-agent/internal/outbox/publisher.go: one round of the outbox publisher, with the queries
-- ListUnpublishedOutbox and MarkOutboxPublished of llm-ops-agent/db/sqlc.
-- The rows of the table stand in the order of their ids. The connection to NATS is a buffer, which
-- Publish fills, and what the broker has of it, which Flush moves there: the messages that wait in the
-- buffer may be lost.
-- One publisher runs, so SKIP LOCKED skips nothing. The ticker, which calls `flush`, is not modelled.
pub mod Marks
pub mod Delivery
use x_scope_hub_svc_plus.Prelude.{
  ℕ, String, Bool, true, false, not, ◌||◌, List, [], ◌∷◌, ◌++◌, map, take, is_empty, ◌==◌,
  if◌then◌else◌,
}
use x_scope_hub_svc_plus.CaseStore.Tables.{OutboxRow, Db}
use x_scope_hub_svc_plus.CaseStore.Session.{Commit, committed, rolled_back, answer_lost}

-- What fails in one round. `publish_fails` is asked by the id of the row.
pub record Round : Type 0 where
  pub begin_fails : Bool
  pub list_fails : Bool
  pub publish_fails : ℕ → Bool
  pub mark_fails : Bool
  pub commit : Commit
  pub flush_fails : Bool

-- The connection to NATS: the messages in its buffer and those that the broker has.
pub record Connection (Message : Type 0) : Type 0 where
  pub pending : List Message
  pub delivered : List Message

-- The limit that the code gives to the query.
abbrev pub batch : ℕ
batch = 10

abbrev pub contains : ℕ → List ℕ → Bool
contains k [] = false
contains k (j ∷ js) = j == k || contains k js

module _ {Json : Type 0} where
  -- what a subscriber receives
  abbrev pub message : OutboxRow Json → String × Json
  message r = (r.topic, r.payload)

  abbrev pub row_id : OutboxRow Json → ℕ
  row_id r = r.id

  -- WHERE published = FALSE
  unfoldable pub unpublished : List (OutboxRow Json) → List (OutboxRow Json)
  unpublished [] = []
  unpublished (r ∷ rs) = if r.published then unpublished rs else r ∷ unpublished rs

  -- SET published = TRUE WHERE id = ANY($1)
  unfoldable pub mark : List ℕ → List (OutboxRow Json) → List (OutboxRow Json)
  mark ids [] = []
  mark ids (r ∷ rs) = (if contains r.id ids then record r { published = true } else r) ∷ mark ids rs

  -- The loop over the rows: what was sent, and whether every row was.
  unfoldable pub publish_all : (ℕ → Bool) → List (OutboxRow Json) → List (String × Json) × Bool
  publish_all fails [] = ([], true)
  publish_all fails (r ∷ rs) =
      let (sent, done) = publish_all fails rs in
      if fails r.id then ([], false) else (message r ∷ sent, done)

  finish : Commit → Db Json → Db Json → Db Json
  finish committed before after = after
  finish rolled_back before after = before
  finish answer_lost before after = after

  -- MarkOutboxPublished where it does not fail, and Commit
  settle : Round → List (OutboxRow Json) → Db Json → Db Json
  unfolding finish
  settle env rows db =
      finish env.commit db (record db { outbox = mark (map row_id rows) db.outbox })

  -- nc.Publish, for each of the messages
  publish : List (String × Json) → Connection (String × Json) → Connection (String × Json)
  publish messages nc = record nc { pending = nc.pending ++ messages }

  -- nc.Flush
  flush_connection : Bool → Connection (String × Json) → Connection (String × Json)
  flush_connection fails nc =
      if fails then nc else record { pending = []; delivered = nc.delivered ++ nc.pending }

  -- What a round does with the rows that it listed. The error of Commit is logged and that of Flush
  -- dropped.
  unfoldable pub flush_rows :
      Round
      → List (OutboxRow Json)
      → Connection (String × Json)
      → Db Json
      → Connection (String × Json) × Db Json
  unfolding settle publish flush_connection
  flush_rows env rows nc db =
      if is_empty rows
      then (nc, db)
      else let (sent, done) = publish_all env.publish_fails rows in
        if not done || env.mark_fails
        then (publish sent nc, db)
        else (flush_connection env.flush_fails (publish sent nc), settle env rows db)

  -- A round: the connection and the store after it.
  unfoldable pub flush :
      Round → Connection (String × Json) → Db Json → Connection (String × Json) × Db Json
  unfolding flush_rows
  flush env nc db =
      if env.begin_fails || env.list_fails
      then (nc, db)
      else flush_rows env (take batch (unpublished db.outbox)) nc db

  -- The rounds of a run.
  unfoldable pub flushes :
      List Round → Connection (String × Json) → Db Json → Connection (String × Json) × Db Json
  flushes [] nc db = (nc, db)
  flushes (env ∷ envs) nc db = let (nc', db') = flush env nc db in flushes envs nc' db'
