-- ===== src/Bootstrap/Records.antt =====
-- bootstrap_discovery, bootstrap_host, bootstrap_dominator and bootstrap_target.go: what the steps of
-- a bootstrap leave in the tables.
use Prim.Native.String.{◌++◌}
use crane_oss.Base.{
  ℕ, String, Bool, true, false, not, ◌&&◌, ◌||◌, ◌==◌, Option, none, some, List, [], ◌∷◌, eqb,
  if◌then◌else◌, Result, ok, err, ◌>>=◌, ◌>>◌, refuse_if, or_fail,
}
use crane_oss.Base.Tables.{any, find, count, update}
use crane_oss.Api.{converging, create_cluster, Operation, same_kind}
use crane_oss.Capacity.Db.{
  Error, invalid, forbidden, fenced, no_rows, scan, external, Cluster, OperationRow, Host,
  ZoneDominator,
}
use crane_oss.Bootstrap.Store.{
  infrastructure_provisioning, network_installing, BootstrapRow, BootstrapDb, BootstrapStepResult,
  is_creation, is_held_by, find_bootstrap, listed, is_at,
}

-- Packages net and net/url on what a step returns, and the patterns of the store. The path of an
-- identity is that of a SPIFFE URL with a trust domain and no query.
pub record Addresses : Type 0 where
  pub is_private_https : String → Bool
  pub is_private_ip : String → Bool
  pub is_ca_hash : String → Bool
  pub is_instance_id : String → Bool
  pub is_dominator_endpoint : String → Bool
  pub identity_path : String → Option String

abbrev pub is_or_blank : String → String → Bool
is_or_blank stored new = stored == "" || stored == new

-- The cluster's row that the guard of SetClusterDiscovery lets pass.
abbrev pub discoverable : Operation → BootstrapStepResult → ℕ → BootstrapDb → Cluster → Bool
discoverable op r now b c =
    any (λ (row : BootstrapRow). row.cluster_id == c.id && is_at op infrastructure_provisioning row)
      b.bootstraps
    && any (λ (o : OperationRow). same_kind o.kind create_cluster && is_held_by op now o)
        b.db.operations
    && listed c.id b.initializing_clusters
    && is_or_blank c.api_server_endpoint r.api_server_endpoint
    && is_or_blank c.ca_cert_hash r.ca_cert_hash

unfoldable pub set_cluster_discovery :
    Addresses → Operation → BootstrapStepResult → ℕ → BootstrapDb → Result Error BootstrapDb
set_cluster_discovery x op r now b = do
  refuse_if
      (not (is_creation op)
        || not (x.is_private_https r.api_server_endpoint)
        || not (x.is_ca_hash r.ca_cert_hash))
      invalid
  refuse_if (not (eqb (count (discoverable op r now b) b.db.clusters) 1)) fenced
  ok (record b {
    db = record b.db {
      clusters =
          update (discoverable op r now b)
            (λ c. record c {
              api_server_endpoint = r.api_server_endpoint;
              ca_cert_hash = r.ca_cert_hash;
            })
            b.db.clusters;
    };
  })

abbrev pub is_expected_identity : Addresses → Operation → String → Bool
is_expected_identity x op identity = elim (x.identity_path identity) [
  | none ↦ false
  | some path ↦ not (op.zone_id == "") && path == "/dominator/" ++ op.zone_id
]

-- LoadBootstrapTarget reads the cluster of the operation.
unfoldable pub load_bootstrap_target : Operation → BootstrapDb → Result Error Cluster
load_bootstrap_target op b = do
  refuse_if (not (is_creation op)) invalid
  row ← or_fail (find_bootstrap op.id b) invalid
  refuse_if
      (not (
        any
          (λ (o : OperationRow).
            o.id == op.id && same_kind o.kind op.kind && o.zone_id == op.zone_id)
          b.db.operations))
      invalid
  or_fail (find (λ (c : Cluster). c.id == row.cluster_id) b.db.clusters) invalid

abbrev pub append_row {ℓ} : {A : Type ℓ} → A → List A → List A
append_row n [] = n ∷ []
append_row n (x ∷ xs) = x ∷ append_row n xs

abbrev pub bootstrap_host_id : Operation → String
bootstrap_host_id op = "bootstrap/" ++ op.id

abbrev pub bootstrap_host : Operation → BootstrapStepResult → ℕ → Host
bootstrap_host op r now = record {
  id = bootstrap_host_id op;
  zone = op.zone_id;
  state = converging;
  role = "cluster-control-plane";
  image_id = r.image_id;
  created_at = now;
  provider = "aws";
  provider_id = r.provider_host_id;
  endpoint = "";
  subd_endpoint = "https://" ++ r.host_private_ip ++ ":44001";
  kubernetes_provider_id = "";
  protected = true;
  node_group_id = "";
  node_pool_id = "";
  crane_zone = "";
  operation_id = "";
  desired_state_version = "";
  observed_state_version = "";
  reserved_vcpu = 0;
  reserved_memory_mib = 0;
  excess_capacity = false;
}

-- ON CONFLICT(id) DO UPDATE, where the host is protected and the provider knows it by the same name.
abbrev pub upsert_host : Host → List Host → List Host
upsert_host n hosts =
    if any (λ (h : Host). h.id == n.id) hosts
    then update
        (λ (h : Host).
          h.id == n.id && h.provider == n.provider && h.provider_id == n.provider_id && h.protected)
        (λ h. record h {
          role = n.role;
          zone = n.zone;
          image_id = n.image_id;
          provider = n.provider;
          provider_id = n.provider_id;
          protected = true;
          subd_endpoint = n.subd_endpoint;
        })
        hosts
    else append_row n hosts

-- A NULL cluster cannot be scanned.
unfoldable pub record_bootstrap_host :
    Addresses → Operation → BootstrapStepResult → ℕ → BootstrapDb → Result Error BootstrapDb
record_bootstrap_host x op r now b = do
  refuse_if (not (is_creation op)) forbidden
  refuse_if (r.provider_host_id == "" || not (x.is_instance_id r.provider_host_id)) invalid
  refuse_if (not (x.is_private_ip r.host_private_ip) || r.image_id == "") invalid
  row ← or_fail (find_bootstrap op.id b) no_rows
  refuse_if (row.cluster_id == "") scan
  let hosts = upsert_host (bootstrap_host op r now) b.db.hosts
  stored ← or_fail (find (λ (h : Host). h.id == bootstrap_host_id op) hosts) no_rows
  refuse_if (not (stored.provider_id == r.provider_host_id))
      (external "bootstrap host identity conflict")
  ok (record b { db = record b.db { hosts = hosts } })

-- The bootstrap whose zone gets the route.
abbrev pub is_routable : Operation → ℕ → BootstrapDb → BootstrapRow → Bool
is_routable op now b row =
    is_at op network_installing row
    && any (λ (o : OperationRow). same_kind o.kind create_cluster && is_held_by op now o)
        b.db.operations

abbrev pub route : String → BootstrapStepResult → ZoneDominator
route zone_id r = record {
  zone_id = zone_id;
  endpoint = r.dominator_endpoint;
  identity = r.dominator_identity;
  observability_status = "configuration_pending";
}

-- A zone keeps its first route: a repetition of it affects one row, another one none.
abbrev pub add_route : ZoneDominator → List ZoneDominator → Result Error (List ZoneDominator)
add_route n routes = elim (find (λ (d : ZoneDominator). d.zone_id == n.zone_id) routes) [
  | none ↦ ok (append_row n routes)
  | some d ↦ if d.endpoint == n.endpoint && d.identity == n.identity then ok routes else err fenced
]

unfoldable pub set_dominator_route :
    Addresses → Operation → BootstrapStepResult → ℕ → BootstrapDb → Result Error BootstrapDb
set_dominator_route x op r now b = do
  refuse_if (not (is_creation op)) forbidden
  refuse_if (not (x.is_dominator_endpoint r.dominator_endpoint)) invalid
  refuse_if (not (is_expected_identity x op r.dominator_identity)) invalid
  row ← or_fail (find (is_routable op now b) b.bootstraps) fenced
  routes ← add_route (route row.zone_id r) b.db.dominators
  ok (record b { db = record b.db { dominators = routes } })
