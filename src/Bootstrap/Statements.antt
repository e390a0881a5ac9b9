-- ===== src/Bootstrap/Statements.antt =====
-- bootstrap_discovery, bootstrap_host and bootstrap_dominator.go: the phases over the statements of the steps.
use crane_oss.Base.{
  ℕ, String, ◌≡◌, refl, sym, ap, Bool, not, ◌||◌, ◌==◌, eqb, ok, ok-injective, ◌>>◌, refuse_if,
  or_fail, >>=-eq-ok,
}
use crane_oss.Base.Tables.{find, count}
use crane_oss.Api.{Operation}
use crane_oss.Capacity.Db.{invalid, forbidden, fenced, no_rows, scan, external, Host, conflict}
use crane_oss.Capacity.Leases.{fenced_update}
use crane_oss.Bootstrap.Store.{
  ZoneBootstrapPhase, infrastructure_provisioning, control_plane_initializing, dominator_installing,
  network_installing, validating, zone_ready, zone_failed, zone_requested, BootstrapDb,
  BootstrapStepResult, is_creation, is_held_by, find_bootstrap, hand_off, is_awaiting,
  release_bootstrap_lease,
}
use crane_oss.Bootstrap.Records.{
  Addresses, set_cluster_discovery, record_bootstrap_host, set_dominator_route, discoverable,
  is_expected_identity, upsert_host, bootstrap_host, bootstrap_host_id, is_routable, route,
  add_route,
}
use crane_oss.Bootstrap.Controller.{record_step}

-- The steps' statements leave the phases as they are.
pub hand_off-phases :
    (cluster zone : String) (b c : BootstrapDb)
    → hand_off cluster zone b ≡ ok c
    → c.bootstraps ≡ b.bootstraps
hand_off-phases cluster zone b c h =
    let (_, _, h1) =
      >>=-eq-ok
        (refuse_if (not (eqb (count (is_awaiting cluster zone) b.db.memberships) 1)) conflict) _
        h in
    sym (ap (λ d. d.bootstraps) (ok-injective _ c refl h1))

pub release-phases :
    (op : Operation) (now : ℕ) (b c : BootstrapDb)
    → release_bootstrap_lease op now b ≡ ok c
    → c.bootstraps ≡ b.bootstraps
unfolding release_bootstrap_lease
release-phases op now b c h =
    let (_, _, h1) = >>=-eq-ok (refuse_if (not (is_creation op)) forbidden) _ h in
    let (_, _, h2) = >>=-eq-ok (fenced_update (is_held_by op now) _ b.db) _ h1 in
    sym (ap (λ d. d.bootstraps) (ok-injective _ c refl h2))

discovery-phases :
    (x : Addresses) (op : Operation) (r : BootstrapStepResult) (now : ℕ) (b c : BootstrapDb)
    → set_cluster_discovery x op r now b ≡ ok c
    → c.bootstraps ≡ b.bootstraps
unfolding set_cluster_discovery
discovery-phases x op r now b c h =
    let (_, _, h1) =
      >>=-eq-ok
        (refuse_if
          (not (is_creation op)
            || not (x.is_private_https r.api_server_endpoint)
            || not (x.is_ca_hash r.ca_cert_hash))
          invalid)
        _ h in
    let (_, _, h2) =
      >>=-eq-ok (refuse_if (not (eqb (count (discoverable op r now b) b.db.clusters) 1)) fenced) _
        h1 in
    sym (ap (λ d. d.bootstraps) (ok-injective _ c refl h2))

host-phases :
    (x : Addresses) (op : Operation) (r : BootstrapStepResult) (now : ℕ) (b c : BootstrapDb)
    → record_bootstrap_host x op r now b ≡ ok c
    → c.bootstraps ≡ b.bootstraps
unfolding record_bootstrap_host
host-phases x op r now b c h =
    let (_, _, h1) = >>=-eq-ok (refuse_if (not (is_creation op)) forbidden) _ h in
    let (_, _, h2) =
      >>=-eq-ok
        (refuse_if (r.provider_host_id == "" || not (x.is_instance_id r.provider_host_id)) invalid)
        _ h1 in
    let (_, _, h3) =
      >>=-eq-ok (refuse_if (not (x.is_private_ip r.host_private_ip) || r.image_id == "") invalid) _
        h2 in
    let (row, _, h4) = >>=-eq-ok (or_fail (find_bootstrap op.id b) no_rows) _ h3 in
    let (_, _, h5) = >>=-eq-ok (refuse_if (row.cluster_id == "") scan) _ h4 in
    let (s, _, h6) =
      >>=-eq-ok
        (or_fail
          (find (λ (k : Host). k.id == bootstrap_host_id op)
            (upsert_host (bootstrap_host op r now) b.db.hosts))
          no_rows)
        _ h5 in
    let (_, _, h7) =
      >>=-eq-ok
        (refuse_if (not (s.provider_id == r.provider_host_id))
          (external "bootstrap host identity conflict"))
        _ h6 in
    sym (ap (λ d. d.bootstraps) (ok-injective _ c refl h7))

route-phases :
    (x : Addresses) (op : Operation) (r : BootstrapStepResult) (now : ℕ) (b c : BootstrapDb)
    → set_dominator_route x op r now b ≡ ok c
    → c.bootstraps ≡ b.bootstraps
unfolding set_dominator_route
route-phases x op r now b c h =
    let (_, _, h1) = >>=-eq-ok (refuse_if (not (is_creation op)) forbidden) _ h in
    let (_, _, h2) =
      >>=-eq-ok (refuse_if (not (x.is_dominator_endpoint r.dominator_endpoint)) invalid) _ h1 in
    let (_, _, h3) =
      >>=-eq-ok (refuse_if (not (is_expected_identity x op r.dominator_identity)) invalid) _ h2 in
    let (row, _, h4) = >>=-eq-ok (or_fail (find (is_routable op now b) b.bootstraps) fenced) _ h3 in
    let (s, _, h5) = >>=-eq-ok (add_route (route row.zone_id r) b.db.dominators) _ h4 in
    sym (ap (λ d. d.bootstraps) (ok-injective _ c refl h5))

plain-phases :
    (g : Bool) (b c : BootstrapDb)
    → (refuse_if g (external "unexpected cluster discovery") >> ok b) ≡ ok c
    → c.bootstraps ≡ b.bootstraps
plain-phases g b c h =
    let (_, _, h1) = >>=-eq-ok (refuse_if g (external "unexpected cluster discovery")) _ h in
    sym (ap (λ d. d.bootstraps) (ok-injective b c refl h1))

pub record_step-phases :
    (x : Addresses) (op : Operation) (r : BootstrapStepResult) (now : ℕ) (next : ZoneBootstrapPhase)
    (b c : BootstrapDb)
    → record_step x op r now next b ≡ ok c
    → c.bootstraps ≡ b.bootstraps
record_step-phases x op r now control_plane_initializing b c h = discovery-phases x op r now b c h
record_step-phases x op r now infrastructure_provisioning b c h = host-phases x op r now b c h
record_step-phases x op r now dominator_installing b c h = route-phases x op r now b c h
record_step-phases x op r now zone_requested b c h = plain-phases _ b c h
record_step-phases x op r now network_installing b c h = plain-phases _ b c h
record_step-phases x op r now validating b c h = plain-phases _ b c h
record_step-phases x op r now zone_ready b c h = plain-phases _ b c h
record_step-phases x op r now zone_failed b c h = plain-phases _ b c h
