-- ===== src/Capacity/Fencing/Refusals.antt =====
-- The fenced calls of store.go, provision_lease.go, provision_handoff.go and the bootstrap, with an
-- outdated fence.
use crane_oss.Base.{
  ℕ, ◌+◌, String, ℤ, ◌≡◌, refl, sym, subst, Bool, true, false, not, ◌==◌, ◌&&◌, List, [], ◌∷◌,
  arith, Result, ok, err, ◌>>=◌, refuse_if, or_fail, if◌then◌else◌,
}
use crane_oss.Base.Tables.{any}
use crane_oss.Base.Rows.{All, All-map, Unique, count-none, any-none, find-none}
use crane_oss.Api.{create_cluster, same_kind, Operation, HostState, ExpectedHostState}
use crane_oss.Capacity.Db.{Error, fenced, Db, Cluster, OperationRow, Host, ProvisioningState}
use crane_oss.Capacity.Policy.{Env}
use crane_oss.Capacity.Leases.{
  Claim, claim, holds, renew, begin_launch, record_provision_failure, release_provision_lease,
  check_provision_lease, confirms, fenced_update,
}
use crane_oss.Capacity.Launch.{Net, record_launch, launches, node_provider}
use crane_oss.Capacity.Provision.{
  fenced_host_update, set_provision_desired_version, set_provision_state, complete_provision,
  allowed, provisioned_by,
}
use crane_oss.Capacity.Binding.{
  Codec, ProvisionBinding, bind_provision_node, pin_provision_expected_state, bindable, pins,
}
use crane_oss.Capacity.Handoff.{
  Release, prepare_provision_release, finalize_provision, releasable, releases_for, finalizable,
}
use crane_oss.Bootstrap.Store.{
  ZoneBootstrapPhase, BootstrapDb, BootstrapRow, BootstrapStepResult, is_held_by, find_bootstrap,
  is_creation, bootstrap_phase, release_bootstrap_lease,
}
use crane_oss.Bootstrap.Records.{
  Addresses, set_cluster_discovery, discoverable, set_dominator_route, is_routable,
  is_expected_identity,
}
use crane_oss.Capacity.Steps.{Reach}
use crane_oss.Capacity.Evolution.{Reach-Evolves}
use crane_oss.Capacity.Fencing.{
  Stale, Stale-holds, FencedFrom, Evolves-FencedFrom, claim-Claimed, claim-known, claim-FencedFrom,
}

abbrev pub Fails : {A : Type 0} → Result Error A → Type 0
Fails r = (e : Error) × (r ≡ err e)

guard-Fails :
    {A : Type 0} (b : Bool) (e : Error) (k : Result Error A)
    → Fails k
    → Fails (refuse_if b e >>= λ _. k)
guard-Fails true e k h = (e, refl)
guard-Fails false e k h = h

bind-Fails :
    {A B : Type 0} (m : Result Error A) (k : A → Result Error B)
    → ((a : A) → Fails (k a))
    → Fails (m >>= k)
bind-Fails (ok a) k h = h a
bind-Fails (err e) k h = (e, refl)

all_false :
    (p : Host → Bool) → ((h : Host) → p h ≡ false) → (hs : List Host) → All (λ x. p x ≡ false) hs
all_false p h [] = tt
all_false p h (x ∷ xs) = (h x, all_false p h xs)

module _ (op : Operation) (db : Db) (s : Stale op db) where
  -- A statement whose test includes the lease changes no row.
  no_row :
      (now : ℕ) (p : OperationRow → Bool)
      → ((o : OperationRow) → holds op now o ≡ false → p o ≡ false)
      → All (λ o. p o ≡ false) db.operations
  no_row now p h = All-map (λ o. holds op now o ≡ false) _ h db.operations (Stale-holds op db s now)

  update_fails :
      (now : ℕ) (p : OperationRow → Bool) (f : OperationRow → OperationRow)
      → ((o : OperationRow) → holds op now o ≡ false → p o ≡ false)
      → fenced_update p f db ≡ err fenced
  unfolding fenced_update
  update_fails now p f h = rw (count-none p db.operations (no_row now p h))

  any_fails :
      (now : ℕ) (p : OperationRow → Bool)
      → ((o : OperationRow) → holds op now o ≡ false → p o ≡ false)
      → any p db.operations ≡ false
  any_fails now p h = any-none p db.operations (no_row now p h)

  host_update_fails :
      (p : Host → Bool) (f : Host → Host)
      → ((h : Host) → p h ≡ false)
      → fenced_host_update p f db ≡ err fenced
  unfolding fenced_host_update
  host_update_fails p f h = rw (count-none p db.hosts (all_false p h db.hosts))

  pub begin_launch-Stale : (now : ℕ) → begin_launch op now db ≡ err fenced
  unfolding begin_launch
  begin_launch-Stale now = update_fails now _ _ (λ o h. ground arith)

  pub release-Stale : (now : ℕ) → release_provision_lease op now db ≡ err fenced
  unfolding release_provision_lease
  release-Stale now = update_fails now _ _ (λ o h. ground arith)

  pub complete-Stale : (now : ℕ) → complete_provision op now db ≡ err fenced
  unfolding complete_provision
  complete-Stale now = update_fails now _ _ (λ o h. ground arith)

  pub renew-Stale : (d : ℤ) (now : ℕ) → Fails (renew op d now db)
  unfolding renew
  renew-Stale d now = guard-Fails _ _ _ (fenced, update_fails now _ _ (λ o h. ground arith))

  pub record_failure-Stale :
      (category : String) (byte_length : String → ℕ) (now : ℕ)
      → Fails (record_provision_failure op category byte_length now db)
  unfolding record_provision_failure
  record_failure-Stale category byte_length now =
      guard-Fails _ _ _ (fenced, update_fails now _ _ (λ o h. ground arith))

  pub record_launch-Stale :
      (net : Net) (provider_id private_ip : String) (nodes : List String) (now : ℕ)
      → Fails (record_launch net op provider_id private_ip nodes now db)
  unfolding record_launch
  record_launch-Stale net provider_id private_ip nodes now = guard-Fails _ _ _ (
      bind-Fails (node_provider nodes) _
        λ id. rw (update_fails now (launches op now) _ (λ o h. ground arith)) (fenced, refl))

  provisioned_by-Stale : (now : ℕ) (h : Host) → provisioned_by op now db h ≡ false
  provisioned_by-Stale now h = any_fails now _ (λ o e. ground arith)

  pub set_state-Stale :
      (expected next : HostState) (now : ℕ) → Fails (set_provision_state op expected next now db)
  unfolding set_provision_state
  set_state-Stale expected next now = guard-Fails _ _ _ (
      bind-Fails (or_fail (allowed expected next) _) _ λ handoff.
        (fenced, host_update_fails _ _ (λ h. ground (arith, provisioned_by-Stale now h))))

  pub set_version-Stale :
      (version : String) (byte_length : String → ℕ) (now : ℕ)
      → Fails (set_provision_desired_version op version byte_length now db)
  unfolding set_provision_desired_version
  set_version-Stale version byte_length now =
      guard-Fails _ _ _
        (fenced, host_update_fails _ _ (λ h. ground (arith, provisioned_by-Stale now h)))

  pub bind-Stale :
      (c : Codec) (b : ProvisionBinding) (now : ℕ) → Fails (bind_provision_node c op b now db)
  unfolding bind_provision_node
  bind-Stale c b now =
      rw (count-none _ db.operations (no_row now (bindable op now db) (λ o h. ground arith)))
        (guard-Fails _ _ _ (fenced, refl))

  pub pin-Stale :
      (c : Codec) (x : ExpectedHostState) (now : ℕ)
      → Fails (pin_provision_expected_state c op x now db)
  unfolding pin_provision_expected_state
  pin-Stale c x now =
      rw (any_fails now (pins op now db) (λ o h. ground arith)) (guard-Fails _ _ _ (fenced, refl))

  not_releasable :
      (version : String) (now : ℕ) (b : ProvisioningState) → releasable op version now db b ≡ false
  not_releasable version now b =
      ground (arith, any_fails now (releases_for op now db b) (λ o h. ground arith))

  pub prepare-Stale :
      (version : String) (now : ℕ) → prepare_provision_release op version now db ≡ err fenced
  unfolding prepare_provision_release
  prepare-Stale version now = rw (count-none _ db.provisioning (none_releasable db.provisioning))
    where
      none_releasable :
          (bs : List ProvisioningState)
          → All
              (λ b.
                ((if version == "" then false else true) && releasable op version now db b) ≡ false)
              bs
      none_releasable = elim [
        | [] ↦ tt
        | b ∷ (bs → rest) ↦ (ground (arith, not_releasable version now b), rest)
      ]

  pub finalize-Stale :
      (release : Release) (version : String) (now : ℕ)
      → finalize_provision release op version now db ≡ err fenced
  unfolding finalize_provision
  finalize-Stale release version now = rw (
      find-none (finalizable op version now db) db.operations
        (no_row now (finalizable op version now db) (λ o h. ground arith)))

  no_holder : (now : ℕ) → any (is_held_by op now) db.operations ≡ false
  no_holder now = any_fails now (is_held_by op now) (λ o h. ground arith)

  -- The bootstrap controller's calls, with whatever tables of its own.
  module _ (b : BootstrapDb) (same : b.db ≡ db) where
    creating :
        (now : ℕ)
        → any
            (λ (o : OperationRow). same_kind o.kind create_cluster && is_held_by op now o)
            b.db.operations
          ≡ false
    creating now = rw same (any_fails now _ (λ o h. ground arith))

    pub bootstrap_phase-Stale :
        (next : ZoneBootstrapPhase) (validated : Bool) (now : ℕ)
        → Fails (bootstrap_phase op next validated now b)
    unfolding bootstrap_phase
    bootstrap_phase-Stale next validated now = guard-Fails _ _ _ (
        bind-Fails (or_fail (find_bootstrap op.id b) fenced) _
          λ row. rw (same, no_holder now) (fenced, refl))

    pub release_bootstrap-Stale : (now : ℕ) → Fails (release_bootstrap_lease op now b)
    unfolding release_bootstrap_lease
    release_bootstrap-Stale now =
        rw (same, update_fails now (is_held_by op now) _ (λ o h. ground arith))
          (guard-Fails _ _ _ (fenced, refl))

    pub discovery-Stale :
        (x : Addresses) (r : BootstrapStepResult) (now : ℕ)
        → Fails (set_cluster_discovery x op r now b)
    unfolding set_cluster_discovery
    discovery-Stale x r now =
        rw (count-none (discoverable op r now b) b.db.clusters (none_discoverable b.db.clusters))
          (guard-Fails _ _ _ (fenced, refl))
      where
        none_discoverable : (cs : List Cluster) → All (λ c. discoverable op r now b c ≡ false) cs
        none_discoverable [] = tt
        none_discoverable (c ∷ cs) = (ground (arith, creating now), none_discoverable cs)

    pub route-Stale :
        (x : Addresses) (r : BootstrapStepResult) (now : ℕ)
        → Fails (set_dominator_route x op r now b)
    unfolding set_dominator_route
    route-Stale x r now =
        rw (find-none (is_routable op now b) b.bootstraps (none_routable b.bootstraps)) (
          guard-Fails (not (is_creation op)) _ _ (
            guard-Fails (not (x.is_dominator_endpoint r.dominator_endpoint)) _ _ (
              guard-Fails (not (is_expected_identity x op r.dominator_identity)) _ _
                (fenced, refl))))
      where
        none_routable : (rs : List BootstrapRow) → All (λ r. is_routable op now b r ≡ false) rs
        none_routable [] = tt
        none_routable (r ∷ rs) = (ground (arith, creating now), none_routable rs)

  pub check_lease-Stale :
      (cluster_id : String) (now : ℕ) → check_provision_lease op cluster_id now db ≡ err fenced
  unfolding check_provision_lease
  check_lease-Stale cluster_id now =
      rw (any_fails now (confirms op cluster_id now db) (λ o h. ground arith))

-- Every fenced call of a provisioning worker and of the bootstrap controller, at any time and with any
-- arguments, is refused; where a call checks nothing else first, by the fence. RecordBootstrapHost has no
-- fence and is not among them.
pub record IsFencedOut (op : Operation) (db : Db) : Type 0 where
  pub renews : (d : ℤ) (now : ℕ) → Fails (renew op d now db)
  pub begins_launch : (now : ℕ) → begin_launch op now db ≡ err fenced
  pub records_launch :
      (net : Net) (provider_id private_ip : String) (nodes : List String) (now : ℕ)
      → Fails (record_launch net op provider_id private_ip nodes now db)
  pub records_failure :
      (category : String) (byte_length : String → ℕ) (now : ℕ)
      → Fails (record_provision_failure op category byte_length now db)
  pub releases_lease : (now : ℕ) → release_provision_lease op now db ≡ err fenced
  pub sets_version :
      (version : String) (byte_length : String → ℕ) (now : ℕ)
      → Fails (set_provision_desired_version op version byte_length now db)
  pub sets_state :
      (expected to : HostState) (now : ℕ) → Fails (set_provision_state op expected to now db)
  pub binds :
      (c : Codec) (b : ProvisionBinding) (now : ℕ) → Fails (bind_provision_node c op b now db)
  pub pins_state :
      (c : Codec) (x : ExpectedHostState) (now : ℕ)
      → Fails (pin_provision_expected_state c op x now db)
  pub prepares :
      (version : String) (now : ℕ) → prepare_provision_release op version now db ≡ err fenced
  pub finalizes :
      (release : Release) (version : String) (now : ℕ)
      → finalize_provision release op version now db ≡ err fenced
  pub completes : (now : ℕ) → complete_provision op now db ≡ err fenced
  pub moves_phase :
      (b : BootstrapDb)
      → b.db ≡ db
      → (next : ZoneBootstrapPhase) (validated : Bool) (now : ℕ)
      → Fails (bootstrap_phase op next validated now b)
  pub gives_back :
      (b : BootstrapDb) → b.db ≡ db → (now : ℕ) → Fails (release_bootstrap_lease op now b)
  pub discovers :
      (b : BootstrapDb)
      → b.db ≡ db
      → (x : Addresses) (r : BootstrapStepResult) (now : ℕ)
      → Fails (set_cluster_discovery x op r now b)
  pub sets_route :
      (b : BootstrapDb)
      → b.db ≡ db
      → (x : Addresses) (r : BootstrapStepResult) (now : ℕ)
      → Fails (set_dominator_route x op r now b)
  pub checks :
      (cluster_id : String) (now : ℕ) → check_provision_lease op cluster_id now db ≡ err fenced

pub Stale-IsFencedOut : (op : Operation) (db : Db) → Stale op db → IsFencedOut op db
Stale-IsFencedOut op db s = record {
  renews = renew-Stale op db s;
  begins_launch = begin_launch-Stale op db s;
  records_launch = record_launch-Stale op db s;
  records_failure = record_failure-Stale op db s;
  releases_lease = release-Stale op db s;
  sets_version = set_version-Stale op db s;
  sets_state = set_state-Stale op db s;
  binds = bind-Stale op db s;
  pins_state = pin-Stale op db s;
  prepares = prepare-Stale op db s;
  finalizes = finalize-Stale op db s;
  completes = complete-Stale op db s;
  moves_phase = bootstrap_phase-Stale op db s;
  gives_back = release_bootstrap-Stale op db s;
  discovers = discovery-Stale op db s;
  sets_route = route-Stale op db s;
  checks = check_lease-Stale op db s;
}

-- A worker claims an operation. After any steps of Capacity.Steps somebody claims the same operation
-- again, and after any further such steps, every fenced call of a provisioning worker or of the bootstrap
-- controller with the first claim is refused. Operation ids are unique when the first claim is made.
pub takeover-IsFencedOut :
    (db db₁ db₂ db₃ db₄ : Db) (env env' : Env) (c c' : Claim) (locked locked' : String → Bool)
    (op op' : Operation)
    → Unique (λ (o : OperationRow). o.id) db.operations
    → claim env c locked db ≡ ok (op, db₁)
    → Reach db₁ db₂
    → claim env' c' locked' db₂ ≡ ok (op', db₃)
    → op'.id ≡ op.id
    → Reach db₃ db₄
    → IsFencedOut op db₄
takeover-IsFencedOut db db₁ db₂ db₃ db₄ env env' c c' locked locked' op op' u h r h' e r' =
    Stale-IsFencedOut op db₄ (Evolves-FencedFrom op.id (op.fence + 1) (Reach-Evolves r') again)
  where
    first : FencedFrom op.id op.fence db₂.operations
    first =
        Evolves-FencedFrom op.id op.fence (Reach-Evolves r)
          (claim-known env c locked db op db₁ u (claim-Claimed env c locked db op db₁ h))

    again : FencedFrom op.id (op.fence + 1) db₃.operations
    again =
        subst (λ id. FencedFrom id (op.fence + 1) db₃.operations) e
          (claim-FencedFrom env' c' locked' db₂ op' db₃ op.fence
            (claim-Claimed env' c' locked' db₂ op' db₃ h')
            (subst (λ id. FencedFrom id op.fence db₂.operations) (sym e) first))
