-- ===== src/Gateway/Config/Tests.antt =====
-- The defaults hold where there is no file.
use x_scope_hub_svc_plus.Prelude.{ℕ, ◌≡◌, refl, inl}
use x_scope_hub_svc_plus.Prelude.Text.{codes}
use x_scope_hub_svc_plus.Gateway.Config.{missing, loaded, default_config, load}

abbrev ten : ℕ
ten = 10

no_file :
    load ten (λ path. missing) (λ s. s) (λ s cfg. inl cfg) (codes "gateway.yaml")
    ≡ loaded (default_config ten)
unfolding load
no_file = refl
