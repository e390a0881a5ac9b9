-- ===== src/Bootstrap/Frame.antt =====
-- The statements of the bootstrap controller: the operations, the topology and the groups.
use crane_oss.Base.{
  ℕ, String, ◌≡◌, refl, subst, Bool, true, false, not, ◌&&◌, ◌||◌, ◌==◌, eqb, arith, Bool-cases,
  inl, inr, ok, ok-injective, refuse_if, or_fail, >>=-eq-ok, if◌then◌else◌,
}
use crane_oss.Base.Tables.{any, find, count}
use crane_oss.Api.{Operation}
use crane_oss.Capacity.Db.{
  invalid, conflict, no_rows, fenced, forbidden, external, scan, Db, Zone, Cluster, OperationRow,
  Host,
}
use crane_oss.Capacity.Policy.{member_of}
use crane_oss.Capacity.Operations.{Evolves, same, updated, trans, fenced_update-Evolves}
use crane_oss.Capacity.Leases.{fenced_update}
use crane_oss.Capacity.Unchanged.{fenced_update-SamePolicy, SamePolicy}
use crane_oss.Bootstrap.Store.{
  BootstrapDb, ZoneBootstrapPhase, zone_ready, zone_failed, same_phase, is_next, bootstrap_next,
  is_creation, is_held_by, find_bootstrap, is_awaiting, hand_off, write_phase, end_operation,
  is_final, bootstrap_phase, release_bootstrap_lease, BootstrapStepResult,
}
use crane_oss.Bootstrap.Records.{
  Addresses, set_cluster_discovery, discoverable, record_bootstrap_host, set_dominator_route,
  is_expected_identity, is_routable, route, add_route, upsert_host, bootstrap_host,
  bootstrap_host_id,
}
use crane_oss.Bootstrap.Calls.{
  BootstrapCall, moves_phase, gives_back, discovers, records_host, sets_route,
}
use crane_oss.Capacity.Administration.{
  update-Finds, Administered, unlabelled, Administered-refl, TopologyKept-trans,
  SameTopology-TopologyKept, SamePolicy-Administered,
}

pub record Written (b c : Db) : Type 0 where
  pub administered : Administered b c
  pub evolves : Evolves b.operations c.operations

Written-refl : (db : Db) → Written db db
Written-refl db = record { administered = Administered-refl db; evolves = same refl }

-- A change of other tables.
beside : (db db' : Db) → SamePolicy db db' → db'.operations ≡ db.operations → Written db db'
beside db db' s o = record { administered = SamePolicy-Administered db db' s; evolves = same o }

hand_off-Written :
    (cluster zone : String) (b c : BootstrapDb) → hand_off cluster zone b ≡ ok c → Written b.db c.db
hand_off-Written cluster zone b c h =
    let (_, _, h1) =
      >>=-eq-ok
        (refuse_if (not (eqb (count (is_awaiting cluster zone) b.db.memberships) 1)) conflict) _
        h in
    subst (λ (d : BootstrapDb). Written b.db d.db) (ok-injective _ c refl h1)
      (record {
        administered =
            unlabelled b.db _
              (record {
                pools = λ id x e. (x, e);
                zones = λ id. update-Finds (λ (z : Zone). z.id == id) _ _ (λ z. refl) b.db.zones;
                clusters =
                    λ id. update-Finds (λ (k : Cluster). k.id == id) _ _ (λ k. refl) b.db.clusters;
                memberships = λ g. update-Finds (member_of g) _ _ (λ m. refl) b.db.memberships;
              })
              refl refl;
        evolves = same refl;
      })

end_operation-Written :
    (id : String) (next : ZoneBootstrapPhase) (now : ℕ) (b c : BootstrapDb)
    → Written b.db c.db
    → Written b.db (end_operation id next now c).db
end_operation-Written id next now b c w = elim (Bool-cases (is_final next)) [
  | inl e ↦ rw e (record {
    administered = record {
      topology =
          TopologyKept-trans b.db c.db _ w.administered.topology
            (SameTopology-TopologyKept c.db _ (ground arith));
      groups = w.administered.groups;
      unique = w.administered.unique;
      requests = w.administered.requests;
    };
    evolves =
        trans w.evolves (updated (λ (o : OperationRow). o.id == id) _ (λ o. ground arith) refl);
  })
  | inr e ↦ rw e w
]

handed-Written :
    (g : Bool) (cluster zone : String) (b c : BootstrapDb)
    → (if g then hand_off cluster zone b else ok b) ≡ ok c
    → Written b.db c.db
handed-Written true cluster zone b c h = hand_off-Written cluster zone b c h
handed-Written false cluster zone b c h =
    subst (λ (d : BootstrapDb). Written b.db d.db) (ok-injective b c refl h) (Written-refl b.db)

bootstrap_phase-Written :
    (op : Operation) (next : ZoneBootstrapPhase) (v : Bool) (now : ℕ) (b c : BootstrapDb)
    → bootstrap_phase op next v now b ≡ ok c
    → Written b.db c.db
unfolding bootstrap_phase
bootstrap_phase-Written op next v now b c h =
    let (_, _, h1) =
      >>=-eq-ok (refuse_if (not (is_creation op)) (external "not a bootstrap operation")) _ h in
    let (row, _, h2) = >>=-eq-ok (or_fail (find_bootstrap op.id b) fenced) _ h1 in
    let (_, _, h3) =
      >>=-eq-ok (refuse_if (not (any (is_held_by op now) b.db.operations)) fenced) _ h2 in
    let (_, _, h4) =
      >>=-eq-ok
        (refuse_if
          (not (same_phase next zone_failed)
            && not (is_next (bootstrap_next op.kind row.phase) next))
          (external "invalid bootstrap phase transition"))
        _ h3 in
    let (_, _, h5) =
      >>=-eq-ok
        (refuse_if (same_phase next zone_ready && not v)
          (external "bootstrap handoff has not been validated"))
        _ h4 in
    let (handed, e6, h6) =
      >>=-eq-ok
        (if same_phase next zone_ready && not (row.cluster_id == "")
          then hand_off row.cluster_id op.zone_id b
          else ok b)
        _ h5 in
    subst (λ (d : BootstrapDb). Written b.db d.db) (ok-injective _ c refl h6)
      (end_operation-Written op.id next now b (write_phase op.id next handed)
        (handed-Written _ row.cluster_id op.zone_id b handed e6))

release-Written :
    (op : Operation) (now : ℕ) (b c : BootstrapDb)
    → release_bootstrap_lease op now b ≡ ok c
    → Written b.db c.db
unfolding release_bootstrap_lease
release-Written op now b c h =
    let (_, _, h1) = >>=-eq-ok (refuse_if (not (is_creation op)) forbidden) _ h in
    let (db, e, h2) = >>=-eq-ok (fenced_update (is_held_by op now) _ b.db) _ h1 in
    subst (λ (d : BootstrapDb). Written b.db d.db) (ok-injective _ c refl h2)
      (record {
        administered = SamePolicy-Administered b.db db (fenced_update-SamePolicy _ _ b.db db e);
        evolves = fenced_update-Evolves _ _ b.db db (λ o. ground arith) e;
      })

discovery-Written :
    (x : Addresses) (op : Operation) (r : BootstrapStepResult) (now : ℕ) (b c : BootstrapDb)
    → set_cluster_discovery x op r now b ≡ ok c
    → Written b.db c.db
unfolding set_cluster_discovery
discovery-Written x op r now b c h =
    let (_, _, h1) =
      >>=-eq-ok
        (refuse_if
          (not (is_creation op)
            || not (x.is_private_https r.api_server_endpoint)
            || not (x.is_ca_hash r.ca_cert_hash))
          invalid)
        _ h in
    let (_, _, h2) =
      >>=-eq-ok (refuse_if (not (eqb (count (discoverable op r now b) b.db.clusters) 1)) fenced) _
        h1 in
    subst (λ (d : BootstrapDb). Written b.db d.db) (ok-injective _ c refl h2)
      (record {
        administered =
            unlabelled b.db _
              (record {
                pools = λ id x e. (x, e);
                zones = λ id x e. (x, e);
                clusters =
                    λ id. update-Finds (λ (k : Cluster). k.id == id) _ _ (λ k. refl) b.db.clusters;
                memberships = λ g x e. (x, e);
              })
              refl refl;
        evolves = same refl;
      })

host-Written :
    (x : Addresses) (op : Operation) (r : BootstrapStepResult) (now : ℕ) (b c : BootstrapDb)
    → record_bootstrap_host x op r now b ≡ ok c
    → Written b.db c.db
unfolding record_bootstrap_host
host-Written x op r now b c h =
    let (_, _, h1) = >>=-eq-ok (refuse_if (not (is_creation op)) forbidden) _ h in
    let (_, _, h2) =
      >>=-eq-ok
        (refuse_if (r.provider_host_id == "" || not (x.is_instance_id r.provider_host_id)) invalid)
        _ h1 in
    let (_, _, h3) =
      >>=-eq-ok (refuse_if (not (x.is_private_ip r.host_private_ip) || r.image_id == "") invalid) _
        h2 in
    let (row, _, h4) = >>=-eq-ok (or_fail (find_bootstrap op.id b) no_rows) _ h3 in
    let (_, _, h5) = >>=-eq-ok (refuse_if (row.cluster_id == "") scan) _ h4 in
    let (s, _, h6) =
      >>=-eq-ok
        (or_fail
          (find (λ (k : Host). k.id == bootstrap_host_id op)
            (upsert_host (bootstrap_host op r now) b.db.hosts))
          no_rows)
        _ h5 in
    let (_, _, h7) =
      >>=-eq-ok
        (refuse_if (not (s.provider_id == r.provider_host_id))
          (external "bootstrap host identity conflict"))
        _ h6 in
    subst (λ (d : BootstrapDb). Written b.db d.db) (ok-injective _ c refl h7)
      (beside b.db _ (ground arith) refl)

route-Written :
    (x : Addresses) (op : Operation) (r : BootstrapStepResult) (now : ℕ) (b c : BootstrapDb)
    → set_dominator_route x op r now b ≡ ok c
    → Written b.db c.db
unfolding set_dominator_route
route-Written x op r now b c h =
    let (_, _, h1) = >>=-eq-ok (refuse_if (not (is_creation op)) forbidden) _ h in
    let (_, _, h2) =
      >>=-eq-ok (refuse_if (not (x.is_dominator_endpoint r.dominator_endpoint)) invalid) _ h1 in
    let (_, _, h3) =
      >>=-eq-ok (refuse_if (not (is_expected_identity x op r.dominator_identity)) invalid) _ h2 in
    let (row, _, h4) = >>=-eq-ok (or_fail (find (is_routable op now b) b.bootstraps) fenced) _ h3 in
    let (s, _, h5) = >>=-eq-ok (add_route (route row.zone_id r) b.db.dominators) _ h4 in
    subst (λ (d : BootstrapDb). Written b.db d.db) (ok-injective _ c refl h5)
      (record {
        administered =
            unlabelled b.db _
              (record {
                pools = λ id x e. (x, e);
                zones = λ id x e. (x, e);
                clusters = λ id x e. (x, e);
                memberships = λ g x e. (x, e);
              })
              refl refl;
        evolves = same refl;
      })

pub BootstrapCall-Written : (b c : BootstrapDb) → BootstrapCall b c → Written b.db c.db
BootstrapCall-Written b c (moves_phase op next v now h) =
    bootstrap_phase-Written op next v now b c h
BootstrapCall-Written b c (gives_back op now h) = release-Written op now b c h
BootstrapCall-Written b c (discovers x op r now h) = discovery-Written x op r now b c h
BootstrapCall-Written b c (records_host x op r now h) = host-Written x op r now b c h
BootstrapCall-Written b c (sets_route x op r now h) = route-Written x op r now b c h
