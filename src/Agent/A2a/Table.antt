-- ===== src/Agent/A2a/Table.antt =====
-- The table of tasks (llm-ops-agent/api/a2a.go).
use x_scope_hub_svc_plus.Prelude.{
  ℕ, ◌≡◌, ◌≢◌, ◌↔◌, refl, ◌∙◌, true, some, List, [], ◌∷◌, ◌++◌, All, if◌then◌else◌, arith,
}
use x_scope_hub_svc_plus.Prelude.Text.{Text, codes, text_eq, trim_space}
use x_scope_hub_svc_plus.Agent.A2a.{
  Bound, bound, malformed, A2aRequest, A2aTaskRecord, Tasks, find_task, put_task, task_record,
  with_id, accepted_task, found_task, create_task, get_task,
}

text_eq_iff : (s t : Text) → (text_eq s t ≡ true) ↔ (s ≡ t)
unfolding text_eq
text_eq_iff [] [] = ground arith
text_eq_iff [] (c ∷ t) = ground arith
text_eq_iff (c ∷ s) [] = ground arith
text_eq_iff (c ∷ s) (d ∷ t) = ground (arith, text_eq_iff s t)

find_task-put_task :
    (id other : Text) (task : A2aTaskRecord) (tasks : Tasks)
    → find_task other (put_task id task tasks)
      ≡ (if text_eq id other then some task else find_task other tasks)
unfolding find_task put_task
find_task-put_task id other task [] = refl
find_task-put_task id other task ((k, t) ∷ tasks) = ground (
  arith,
  text_eq_iff id other,
  text_eq_iff k id,
  text_eq_iff k other,
  find_task-put_task id other task tasks,
)

-- A call of createTask: its two random identifiers, the time and the body.
pub record Creation : Type 0 where
  pub seed : Text
  pub task_seed : Text
  pub now : ℕ
  pub body : Bound

unfoldable pub after_creations : List Creation → Tasks → Tasks
unfolding create_task
after_creations [] tasks = tasks
after_creations (c ∷ cs) tasks =
    after_creations cs (create_task c.seed c.task_seed c.now c.body tasks).1

abbrev pub id_of : Text → Text
id_of task_seed = codes "a2a-" ++ task_seed

create_task-other :
    (c : Creation) (id : Text) (tasks : Tasks)
    → id_of c.task_seed ≢ id
    → find_task id (create_task c.seed c.task_seed c.now c.body tasks).1 ≡ find_task id tasks
unfolding create_task
create_task-other c id tasks other =
    elim c.body
      as (λ b. find_task id (create_task c.seed c.task_seed c.now b tasks).1 ≡ find_task id tasks) [
        | malformed e ↦ refl
        | bound req ↦ ground (
          arith,
          text_eq_iff (id_of c.task_seed) id,
          find_task-put_task (id_of c.task_seed) id
              (task_record (id_of c.task_seed) c.now (with_id c.seed req)) tasks,
        )
      ]

after_creations-other :
    (cs : List Creation) (id : Text) (tasks : Tasks)
    → All (λ (c : Creation). id_of c.task_seed ≢ id) cs
    → find_task id (after_creations cs tasks) ≡ find_task id tasks
unfolding after_creations
after_creations-other [] id tasks h = refl
after_creations-other (c ∷ cs) id tasks h =
    after_creations-other cs id _ h.1 ∙ create_task-other c id tasks h.0

-- A task that was created is found again under its identifier, as it was answered to its creator,
-- also after any number of further creations under other identifiers, where the identifier has no
-- white space at its ends.
pub get_task-create_task :
    (seed task_seed : Text) (now : ℕ) (req : A2aRequest) (later : List Creation) (tasks : Tasks)
    → All (λ (c : Creation). id_of c.task_seed ≢ id_of task_seed) later
    → trim_space (id_of task_seed) ≡ id_of task_seed
    → ((create_task seed task_seed now (bound req) tasks).0
        ≡ accepted_task (task_record (id_of task_seed) now (with_id seed req)))
      × (get_task
            (id_of task_seed)
            (after_creations later (create_task seed task_seed now (bound req) tasks).1)
          ≡ found_task (task_record (id_of task_seed) now (with_id seed req)))
unfolding create_task get_task
get_task-create_task seed task_seed now req later tasks others clean =
    let task = task_record (id_of task_seed) now (with_id seed req) in
    let kept =
      after_creations-other later (id_of task_seed) (put_task (id_of task_seed) task tasks)
        others in
    let put = find_task-put_task (id_of task_seed) (id_of task_seed) task tasks in
    (refl, ground (arith, kept, put, text_eq_iff (id_of task_seed) (id_of task_seed)))
