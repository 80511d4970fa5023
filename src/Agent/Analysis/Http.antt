-- ===== src/Agent/Analysis/Http.antt =====
-- llm-ops-agent/api/handlers.go: the analysis handler. What gin has decoded of a body, and a header,
-- are arguments; a reply is a status with the response or the text of an error.
use x_scope_hub_svc_plus.Prelude.{ℕ, ◌⊎◌, inl, inr, List, is_empty, if◌then◌else◌}
use x_scope_hub_svc_plus.Prelude.Text.{Text, codes}
use x_scope_hub_svc_plus.Agent.Analysis.{Request, Response}
use x_scope_hub_svc_plus.Agent.Analysis.Gateway.{got, failed, HttpPost, Sent}
use x_scope_hub_svc_plus.Agent.Analysis.Collect.{Source}
use x_scope_hub_svc_plus.Agent.Analysis.Run.{Service, run}

-- The request with the tenant and the user of the headers, where the body has none.
unfoldable pub with_headers : (Text → Text) → Request → Request
with_headers header req = record req {
  tenant = if is_empty req.tenant then header (codes "X-Tenant") else req.tenant;
  user = if is_empty req.user then header (codes "X-User") else req.user;
}

unfoldable pub run_handler :
    {Float : Type 0}
    → Service Float
    → ℕ
    → (HttpPost → Sent)
    → List Source
    → (Text → Text)
    → Request ⊎ Text
    → ℕ × (Response Float ⊎ Text)
unfolding with_headers run
run_handler s now send order header (inr e) = (400, inr e)
run_handler s now send order header (inl req) =
    elim (run s now send order (with_headers header req)) [
      | failed e ↦ (400, inr e)
      | got r ↦ (200, inl r)
    ]
