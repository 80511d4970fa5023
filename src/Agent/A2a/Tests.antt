-- ===== src/Agent/A2a/Tests.antt =====
-- Two requests, and the theorems at them.
use x_scope_hub_svc_plus.Prelude.{◌≡◌, ◌⊎◌, refl, some, [], ◌∷◌, List, arith}
use x_scope_hub_svc_plus.Prelude.Text.{
  codes, trim_space, trim, trim_left, trim_right, is_space, to_lower, to_lower_byte, join, cut,
  after_prefix,
}
use x_scope_hub_svc_plus.Agent.A2a.{
  A2aRequest, bound, completed, needs_input, declined, command_words, contains, contains_any,
  request_text, response, evaluate_observability_request, task_record, with_id, accepted_task,
  found_task, create_task, get_task,
}
use x_scope_hub_svc_plus.Agent.A2a.Words.{OneOccurs, IsObservability, IsChange, task_record-words}
use x_scope_hub_svc_plus.Agent.A2a.Table.{Creation, after_creations, id_of, get_task-create_task}

abbrev logs : A2aRequest
logs = record {
  from_agent_id = codes "xops";
  to_agent_id = [];
  request_id = codes "r1";
  intent = codes "collect";
  goal = codes "Logs of the API";
}

-- `iac` stands inside another word.
abbrev maniac : A2aRequest
maniac = record logs { goal = codes "find the maniac" }

misread : (evaluate_observability_request maniac).status ≡ needs_input
unfolding evaluate_observability_request response request_text contains_any contains to_lower
    to_lower_byte join cut after_prefix
misread = refl

task_record-words_example :
    (IsObservability logs
      × ((task_record (codes "a2a-7") 5 logs).status ≡ completed)
      × ((task_record (codes "a2a-7") 5 logs).result.deliverable
          ≡ some (codes "observability_evidence")))
    ⊎ ((IsChange logs
          × ((task_record (codes "a2a-7") 5 logs).status ≡ needs_input)
          × ((task_record (codes "a2a-7") 5 logs).result.handoff_agent_id
              ≡ some (codes "x-automation-agent")))
        ⊎ (OneOccurs (request_text logs) command_words
            × ((task_record (codes "a2a-7") 5 logs).status ≡ declined)
            × ((task_record (codes "a2a-7") 5 logs).result.handoff_agent_id
                ≡ some (codes "xops-agent"))))
task_record-words_example = task_record-words (codes "a2a-7") 5 logs

abbrev later : List Creation
later = record { seed = codes "0"; task_seed = codes "8"; now = 6; body = bound maniac } ∷ []

clean : trim_space (id_of (codes "7")) ≡ id_of (codes "7")
unfolding trim_space trim trim_left trim_right is_space
clean = refl

get_task-create_task_example :
    ((create_task (codes "0") (codes "7") 5 (bound logs) []).0
      ≡ accepted_task (task_record (id_of (codes "7")) 5 (with_id (codes "0") logs)))
    × (get_task
          (id_of (codes "7"))
          (after_creations later (create_task (codes "0") (codes "7") 5 (bound logs) []).1)
        ≡ found_task (task_record (id_of (codes "7")) 5 (with_id (codes "0") logs)))
get_task-create_task_example =
    get_task-create_task (codes "0") (codes "7") 5 logs later [] (ground arith, tt) clean
