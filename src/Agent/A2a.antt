-- ===== src/Agent/A2a.antt =====
-- llm-ops-agent/api/a2a.go: what other agents ask of the observability agent, and the table of tasks.
-- What gin decodes, the random identifiers and the clock are arguments; the members of a request that
-- no handler reads are left out. Texts are bytes, with the letter case of ASCII. The lock of the table
-- is left out: the calls are a sequence.
pub mod Table
pub mod Words
mod Tests
use x_scope_hub_svc_plus.Prelude.{
  ℕ, Bool, true, false, ◌||◌, Option, none, some, List, [], ◌∷◌, ◌++◌, is_empty, if◌then◌else◌,
}
use x_scope_hub_svc_plus.Prelude.Text.{Text, codes, to_lower, trim_space, text_eq, cut, join}

pub record A2aRequest : Type 0 where
  pub from_agent_id : Text
  pub to_agent_id : Text
  pub request_id : Text
  pub intent : Text
  pub goal : Text

-- The map of a result, by its keys.
pub record Outcome : Type 0 where
  pub role : Text
  pub decision : Text
  pub request_id : Text
  pub target_agent : Text
  pub next_action : Text
  pub handoff_agent_id : Option Text
  pub deliverable : Option Text

pub record A2aResponse : Type 0 where
  pub status : Text
  pub owner_agent_id : Text
  pub summary : Text
  pub required_inputs : List Text
  pub result : Outcome

pub record A2aTaskRecord : Type 0 where
  pub task_id : Text
  pub request_id : Text
  pub from_agent_id : Text
  pub to_agent_id : Text
  pub intent : Text
  pub goal : Text
  pub status : Text
  pub owner_agent_id : Text
  pub summary : Text
  pub result : Outcome
  pub created_at : ℕ

abbrev pub agent : Text
agent = codes "x-observability-agent"

abbrev pub accepted : Text
accepted = codes "accepted"

abbrev pub needs_input : Text
needs_input = codes "needs_input"

abbrev pub declined : Text
declined = codes "declined"

abbrev pub completed : Text
completed = codes "completed"

-- strings.Contains
unfoldable pub contains : Text → Text → Bool
unfolding cut
contains text candidate = elim (cut candidate text) [ none ↦ false | some p ↦ true ]

unfoldable pub contains_any : Text → List Text → Bool
unfolding contains
contains_any text [] = false
contains_any text (candidate ∷ candidates) =
    if contains text candidate then true else contains_any text candidates

unfoldable pub fallback : Text → Text → Text
fallback value default =
    let trimmed = trim_space value in if is_empty trimmed then default else trimmed

abbrev pub change_words : List Text
change_words =
    codes "terraform"
    ∷ codes "pulumi"
    ∷ codes "dns"
    ∷ codes "playbook"
    ∷ codes "iac"
    ∷ codes "deploy"
    ∷ []

abbrev pub command_words : List Text
command_words =
    codes "incident commander"
    ∷ codes "runbook"
    ∷ codes "execute"
    ∷ codes "remediate"
    ∷ codes "root cause"
    ∷ []

-- The text that is searched for words.
unfoldable pub request_text : A2aRequest → Text
unfolding join
request_text req = to_lower (join (codes " ") (req.intent ∷ req.goal ∷ []))

unfoldable pub outcome : A2aRequest → Text → Option Text → Outcome
outcome req decision handoff = record {
  role = codes "observability";
  decision = decision;
  request_id = req.request_id;
  target_agent = agent;
  next_action = codes "collect logs, metrics, traces, and alert context";
  handoff_agent_id = handoff;
  deliverable = none;
}

unfoldable pub response : A2aRequest → Text → Text → Text → Option Text → A2aResponse
unfolding outcome
response req status summary decision handoff = record {
  status = status;
  owner_agent_id = agent;
  summary = summary;
  required_inputs = [];
  result = outcome req decision handoff;
}

unfoldable pub evaluate_observability_request : A2aRequest → A2aResponse
unfolding request_text contains_any response
evaluate_observability_request req =
    if contains_any (request_text req) command_words
    then response req declined
        (codes "x-observability-agent declines operational command and recommends xops-agent.")
        (codes "handoff") (some (codes "xops-agent"))
    else if contains_any (request_text req) change_words
    then response req needs_input
        (codes
          "x-observability-agent can validate the change, but the infrastructure action belongs to x-automation-agent.")
        (codes "consult") (some (codes "x-automation-agent"))
    else response req accepted
        (codes "x-observability-agent accepts the observability evidence request.") accepted none

-- What gin makes of a body.
pub data Bound : Type 0 where
  bound : A2aRequest → Bound
  malformed : Text → Bound

-- bindA2ARequest, after the decoding, with the random identifier for a request that has none
unfoldable pub with_id : Text → A2aRequest → A2aRequest
unfolding fallback
with_id seed req = record req { request_id = fallback req.request_id seed }

pub data Reply : Type 0 where
  bad_request : Text → Reply
  task_not_found : Reply
  negotiated : A2aResponse → Reply
  accepted_task found_task : A2aTaskRecord → Reply

unfoldable pub negotiate : Text → Bound → Reply
unfolding with_id evaluate_observability_request
negotiate seed (malformed e) = bad_request e
negotiate seed (bound req) = negotiated (evaluate_observability_request (with_id seed req))

-- The record of a task, completed at once where the request is accepted.
unfoldable pub task_record : Text → ℕ → A2aRequest → A2aTaskRecord
unfolding evaluate_observability_request fallback
task_record task_id now req =
    let resp = evaluate_observability_request req in
    let done = text_eq resp.status accepted in
    record {
      task_id = task_id;
      request_id = req.request_id;
      from_agent_id = req.from_agent_id;
      to_agent_id = fallback req.to_agent_id agent;
      intent = req.intent;
      goal = req.goal;
      status = if done then completed else resp.status;
      owner_agent_id = agent;
      summary =
          if done
          then codes "x-observability-agent completed the observability evidence handoff."
          else resp.summary;
      result = record resp.result {
        deliverable =
            if done then some (codes "observability_evidence") else resp.result.deliverable;
      };
      created_at = now;
    }

abbrev pub Tasks : Type 0
Tasks = List (Text × A2aTaskRecord)

unfoldable pub find_task : Text → Tasks → Option A2aTaskRecord
unfolding text_eq
find_task id [] = none
find_task id ((k, t) ∷ tasks) = if text_eq k id then some t else find_task id tasks

-- s.tasks[taskID] = record
unfoldable pub put_task : Text → A2aTaskRecord → Tasks → Tasks
unfolding text_eq
put_task id task [] = (id, task) ∷ []
put_task id task ((k, t) ∷ tasks) =
    if text_eq k id then (id, task) ∷ tasks else (k, t) ∷ put_task id task tasks

unfoldable pub create_task : Text → Text → ℕ → Bound → Tasks → Reply × Tasks
unfolding with_id task_record put_task
create_task seed task_seed now (malformed e) tasks = (bad_request e, tasks)
create_task seed task_seed now (bound req) tasks =
    let task_id : Text = codes "a2a-" ++ task_seed in
    let task = task_record task_id now (with_id seed req) in
    (accepted_task task, put_task task_id task tasks)

unfoldable pub get_task : Text → Tasks → Reply
unfolding find_task
get_task id tasks = elim (find_task (trim_space id) tasks) [
  | none ↦ task_not_found
  | some task ↦ found_task task
]
