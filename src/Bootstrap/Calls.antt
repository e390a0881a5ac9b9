-- ===== src/Bootstrap/Calls.antt =====
-- The statements of the bootstrap controller, as changes of the store.
use crane_oss.Base.{ℕ, Bool, ◌≡◌, ok}
use crane_oss.Api.{Operation}
use crane_oss.Bootstrap.Store.{
  ZoneBootstrapPhase, BootstrapDb, BootstrapStepResult, bootstrap_phase, release_bootstrap_lease,
}
use crane_oss.Bootstrap.Records.{
  Addresses, set_cluster_discovery, record_bootstrap_host, set_dominator_route,
}

pub data BootstrapCall (b c : BootstrapDb) : Type 0 where
  moves_phase :
      (op : Operation) (next : ZoneBootstrapPhase) (validated : Bool) (now : ℕ)
      → bootstrap_phase op next validated now b ≡ ok c
      → BootstrapCall b c
  gives_back :
      (op : Operation) (now : ℕ) → release_bootstrap_lease op now b ≡ ok c → BootstrapCall b c
  discovers :
      (x : Addresses) (op : Operation) (r : BootstrapStepResult) (now : ℕ)
      → set_cluster_discovery x op r now b ≡ ok c
      → BootstrapCall b c
  records_host :
      (x : Addresses) (op : Operation) (r : BootstrapStepResult) (now : ℕ)
      → record_bootstrap_host x op r now b ≡ ok c
      → BootstrapCall b c
  sets_route :
      (x : Addresses) (op : Operation) (r : BootstrapStepResult) (now : ℕ)
      → set_dominator_route x op r now b ≡ ok c
      → BootstrapCall b c
