-- ===== src/Capacity/Evolution.antt =====
-- The operations table over the steps of the store.
use crane_oss.Base.{
  ℕ, ◌+◌, ◌-◌, ◌<◌, String, ℤ, ◌≡◌, refl, ap, subst, inl, inr, Bool, true, false, ◌==◌, ◌||◌, ltb,
  none, some, List, [], ◌∷◌, arith, Bool-cases, ok, refuse_if, or_fail, if◌then◌else◌, >>=-eq-ok,
  or_fail-eq-ok,
}
use crane_oss.Base.Tables.{find}
use crane_oss.Api.{
  CapacityRequest, CapacityResult, NodeRemovalRequest, RemovalNode, Operation, ExpectedHostState,
  HostState, is_provision,
}
use crane_oss.Capacity.Db.{
  invalid, invalid_lease, fenced, no_rows, invalid_provider_result, Db, OperationRow, RequestRow,
  Host,
}
use crane_oss.Capacity.Policy.{Env, Policy}
use crane_oss.Capacity.Admission.{replay, apply_change, insert_request}
use crane_oss.Capacity.Admission.Outcome.{
  Outcome, replayed, fresh, set_target-Outcome, Admitted, admit-Admitted,
}
use crane_oss.Capacity.Leases.{
  Claim, claim, claim_row, next_claim, bad_duration, renew, begin_launch, record_provision_failure,
  release_provision_lease, fenced_update,
}
use crane_oss.Capacity.Launch.{Net, record_launch, node_provider, subd_endpoint}
use crane_oss.Capacity.Provision.{
  fenced_host_update, set_provision_desired_version, set_provision_state, complete_provision,
  allowed,
}
use crane_oss.Capacity.Binding.{
  Codec, ProvisionBinding, bind_provision_node, pin_provision_expected_state,
}
use crane_oss.Capacity.Handoff.{
  Release, prepare_provision_release, commit_release, finalize_provision, finalizable,
  release_deadline,
}
use crane_oss.Capacity.Removals.{remove_node_intent, remove_node_intents, removal_operation}
use crane_oss.Capacity.Removals.Outcome.{
  RemovalOutcome, replayed as repeated, fresh as removed, create_autoscaler_removals-RemovalOutcome,
}
use crane_oss.Capacity.Operations.{
  Evolves, same, updated, inserted, trans, fenced_update-Evolves, provision_intents-Evolves,
  cancel_pending-Evolves,
}
use crane_oss.Capacity.Inversion.{fenced_host_update-eq-ok}
use crane_oss.Capacity.Steps.{
  Step, Reach, here, onward, sets_target, removes_nodes, claims, renews, begins_launch,
  records_launch, records_failure, releases_lease, sets_version, sets_state, binds, pins, prepares,
  finalizes, completes, relabels, admits_cluster, bootstraps,
}
use crane_oss.Capacity.Administration.{relabel-Administered, membership-Administered}
use crane_oss.Bootstrap.Frame.{BootstrapCall-Written}

host_update-Evolves :
    (p : Host → Bool) (f : Host → Host) (db db' : Db)
    → fenced_host_update p f db ≡ ok db'
    → Evolves db.operations db'.operations
host_update-Evolves p f db db' h =
    same (ap (λ (d : Db). d.operations) (fenced_host_update-eq-ok p f db db' h).1)

apply_change-Evolves :
    (env : Env) (p : Policy) (desired revision : ℕ) (db db' : Db)
    → apply_change env p desired revision db ≡ ok db'
    → Evolves db.operations db'.operations
unfolding apply_change
apply_change-Evolves env p desired revision db db' h =
    elim (Bool-cases (ltb p.group.target_nodes desired)) [
      | inl up ↦ provision_intents-Evolves env p (env.uuid 0) revision _ 1 db db' (rw up at h)
      | inr not_up ↦ elim (Bool-cases (ltb desired p.group.target_nodes)) [
        | inl down ↦
            trans (cancel_pending-Evolves env p.group.id (p.group.target_nodes - desired) db)
              (same (ground (arith, h)))
        | inr level ↦ same (ground arith)
      ]
    ]

insert_request-operations :
    (row : RequestRow) (db mid : Db)
    → insert_request row db ≡ ok mid
    → mid.operations ≡ db.operations
unfolding insert_request
insert_request-operations row db mid e = ground arith

set_target-Evolves :
    (env : Env) (req : CapacityRequest) (db : Db) (r : CapacityResult) (db' : Db)
    → Outcome env req db r db'
    → Evolves db.operations db'.operations
unfolding replay
set_target-Evolves env req db r db' (replayed p row _ _ h) = same (ground arith)
set_target-Evolves env req db r db' (fresh p _ _ h) =
    let a : Admitted env req p db r db' = admit-Admitted env req p db r db' h in
    trans (same (insert_request-operations _ db a.recorded a.inserted))
      (apply_change-Evolves env a.priced _ _ _ db' a.applied)

claim-Evolves :
    (env : Env) (c : Claim) (locked : String → Bool) (op : Operation) (db db' : Db)
    → claim env c locked db ≡ ok (op, db')
    → Evolves db.operations db'.operations
unfolding claim
claim-Evolves env c locked op db db' h =
    let (_, _, h1) =
      >>=-eq-ok
        (refuse_if (c.zone_id == "" || c.owner == "" || bad_duration c.duration) invalid_lease) _
        h in
    let (o, _, h2) = >>=-eq-ok (or_fail (next_claim env c locked db) no_rows) _ h1 in
    updated (λ (r : OperationRow). r.id == o.id) (claim_row env c db) (λ x. ground arith)
      (ground arith)

renew-Evolves :
    (op : Operation) (d : ℤ) (now : ℕ) (db db' : Db)
    → renew op d now db ≡ ok db'
    → Evolves db.operations db'.operations
unfolding renew
renew-Evolves op d now db db' h =
    let (_, _, h1) = >>=-eq-ok (refuse_if (bad_duration d) invalid_lease) _ h in
    fenced_update-Evolves _ _ db db' (λ x. ground arith) h1

record_launch-Evolves :
    (net : Net) (op : Operation) (provider_id private_ip : String) (nodes : List String) (now : ℕ)
    (db db' : Db)
    → record_launch net op provider_id private_ip nodes now db ≡ ok db'
    → Evolves db.operations db'.operations
unfolding record_launch
record_launch-Evolves net op provider_id private_ip nodes now db db' h =
    let (_, _, h1) =
      >>=-eq-ok
        (refuse_if ((if is_provision op.kind then false else true) || provider_id == "")
          invalid_provider_result)
        _ h in
    let (node_id, _, h2) = >>=-eq-ok (node_provider nodes) _ h1 in
    let (touched, e, h3) = >>=-eq-ok (fenced_update _ _ db) _ h2 in
    let (endpoint, _, h4) = >>=-eq-ok (subd_endpoint net private_ip) _ h3 in
    trans (fenced_update-Evolves _ _ db touched (λ x. ground arith) e) (same (ground (arith, h4)))

record_failure-Evolves :
    (op : Operation) (category : String) (byte_length : String → ℕ) (now : ℕ) (db db' : Db)
    → record_provision_failure op category byte_length now db ≡ ok db'
    → Evolves db.operations db'.operations
unfolding record_provision_failure
record_failure-Evolves op category byte_length now db db' h =
    let (_, _, h1) =
      >>=-eq-ok (refuse_if (category == "" || ltb 80 (byte_length category)) invalid) _ h in
    fenced_update-Evolves _ _ db db' (λ x. ground arith) h1

set_version-Evolves :
    (op : Operation) (version : String) (byte_length : String → ℕ) (now : ℕ) (db db' : Db)
    → set_provision_desired_version op version byte_length now db ≡ ok db'
    → Evolves db.operations db'.operations
unfolding set_provision_desired_version
set_version-Evolves op version byte_length now db db' h =
    let (_, _, h1) =
      >>=-eq-ok
        (refuse_if
          ((if is_provision op.kind then false else true)
            || version == ""
            || ltb 128 (byte_length version))
          invalid)
        _ h in
    host_update-Evolves _ _ db db' h1

set_state-Evolves :
    (op : Operation) (expected next : HostState) (now : ℕ) (db db' : Db)
    → set_provision_state op expected next now db ≡ ok db'
    → Evolves db.operations db'.operations
unfolding set_provision_state
set_state-Evolves op expected next now db db' h =
    let (_, _, h1) =
      >>=-eq-ok (refuse_if (if is_provision op.kind then false else true) invalid) _ h in
    let (handoff, _, h2) = >>=-eq-ok (or_fail (allowed expected next) invalid) _ h1 in
    host_update-Evolves _ _ db db' h2

bind-operations :
    (c : Codec) (op : Operation) (b : ProvisionBinding) (now : ℕ) (db db' : Db)
    → bind_provision_node c op b now db ≡ ok db'
    → db'.operations ≡ db.operations
unfolding bind_provision_node
bind-operations c op b now db db' h = ground arith

pin-operations :
    (c : Codec) (op : Operation) (s pinned : ExpectedHostState) (now : ℕ) (db db' : Db)
    → pin_provision_expected_state c op s now db ≡ ok (pinned, db')
    → db'.operations ≡ db.operations
unfolding pin_provision_expected_state
pin-operations c op s pinned now db db' h = ground arith

prepare-operations :
    (op : Operation) (version : String) (now : ℕ) (db db' : Db)
    → prepare_provision_release op version now db ≡ ok db'
    → db'.operations ≡ db.operations
unfolding prepare_provision_release
prepare-operations op version now db db' h = ground arith

pub commit_release-Evolves :
    (op : Operation) (later : ℕ) (db db' : Db)
    → commit_release op later db ≡ ok db'
    → Evolves db.operations db'.operations
unfolding commit_release
commit_release-Evolves op later db db' h =
    let (released, e, h1) = >>=-eq-ok (fenced_host_update _ _ db) _ h in
    trans (host_update-Evolves _ _ db released e)
      (fenced_update-Evolves _ _ released db' (λ x. ground arith) h1)

begin_launch-Evolves :
    (op : Operation) (now : ℕ) (db db' : Db)
    → begin_launch op now db ≡ ok db'
    → Evolves db.operations db'.operations
unfolding begin_launch
begin_launch-Evolves op now db db' h = fenced_update-Evolves _ _ db db' (λ x. ground arith) h

release_lease-Evolves :
    (op : Operation) (now : ℕ) (db db' : Db)
    → release_provision_lease op now db ≡ ok db'
    → Evolves db.operations db'.operations
unfolding release_provision_lease
release_lease-Evolves op now db db' h = fenced_update-Evolves _ _ db db' (λ x. ground arith) h

complete-Evolves :
    (op : Operation) (now : ℕ) (db db' : Db)
    → complete_provision op now db ≡ ok db'
    → Evolves db.operations db'.operations
unfolding complete_provision
complete-Evolves op now db db' h = fenced_update-Evolves _ _ db db' (λ x. ground arith) h

-- A release that was committed: an operation passed the locking read, the external call succeeded
-- before its deadline, and both writes followed.
pub finalize-commit_release :
    (release : Release) (op : Operation) (version : String) (now : ℕ) (db db' : Db)
    → finalize_provision release op version now db ≡ ok db'
    → (o : OperationRow) × (find (finalizable op version now db) db.operations ≡ some o)
      × ((release (release_deadline now o)).0 ≡ none)
      × ((release (release_deadline now o)).1 < release_deadline now o)
      × (commit_release op (release (release_deadline now o)).1 db ≡ ok db')
unfolding finalize_provision
finalize-commit_release release op version now db db' h =
    let (o, found, h1) =
      >>=-eq-ok (or_fail (find (finalizable op version now db) db.operations) fenced) _ h in
    (o, or_fail-eq-ok _ fenced o found, ground (arith, h1), ground (arith, h1), ground (arith, h1))

finalize-Evolves :
    (release : Release) (op : Operation) (version : String) (now : ℕ) (db db' : Db)
    → finalize_provision release op version now db ≡ ok db'
    → Evolves db.operations db'.operations
finalize-Evolves release op version now db db' h =
    let (_, _, _, _, committed) = finalize-commit_release release op version now db db' h in
    commit_release-Evolves op _ db db' committed

remove_node_intent-Evolves :
    (env : Env) (req : NodeRemovalRequest) (zone_id : String) (revision k : ℕ) (n : RemovalNode)
    (id : String) (db db' : Db)
    → remove_node_intent env req zone_id revision k (n, id) db ≡ ok db'
    → Evolves db.operations db'.operations
unfolding remove_node_intent
remove_node_intent-Evolves env req zone_id revision k n id db db' h =
    inserted (removal_operation env req zone_id revision k n) (ground arith) (ground arith)

remove_node_intents-Evolves :
    (env : Env) (req : NodeRemovalRequest) (zone_id : String) (revision k : ℕ)
    (nodes : List (RemovalNode × String)) (db db' : Db)
    → remove_node_intents env req zone_id revision k nodes db ≡ ok db'
    → Evolves db.operations db'.operations
unfolding remove_node_intents
remove_node_intents-Evolves env req zone_id revision k [] db db' h = same (ground arith)
remove_node_intents-Evolves env req zone_id revision k ((n, id) ∷ ns) db db' h =
    let (mid, first, rest) =
      >>=-eq-ok (remove_node_intent env req zone_id revision k (n, id) db) _ h in
    trans (remove_node_intent-Evolves env req zone_id revision k n id db mid first)
      (remove_node_intents-Evolves env req zone_id revision (k + 2) ns mid db' rest)

removals-Evolves :
    (env : Env) (cluster_id : String) (req : NodeRemovalRequest) (db db' : Db)
    → RemovalOutcome env cluster_id req db db'
    → Evolves db.operations db'.operations
removals-Evolves env cluster_id req db db' (repeated o _ _ e) =
    same (ap (λ (d : Db). d.operations) e)
removals-Evolves env cluster_id req db db' (removed p _ _ _ r) =
    remove_node_intents-Evolves env req p.group.zone_id (p.group.target_revision + 1) 0 r.nodes _
      db' r.applied

-- Whatever the step, rows keep their intent, fences do not fall, and new rows have new ids.
pub Step-Evolves : {db db' : Db} → Step db db' → Evolves db.operations db'.operations
Step-Evolves {db} {db'} (sets_target env req r h) =
    set_target-Evolves env req db r db' (set_target-Outcome env req db r db' h)
Step-Evolves {db} {db'} (removes_nodes env cluster_id req h) =
    removals-Evolves env cluster_id req db db'
      (create_autoscaler_removals-RemovalOutcome env cluster_id req db db' h)
Step-Evolves {db} {db'} (claims env c locked op h) = claim-Evolves env c locked op db db' h
Step-Evolves {db} {db'} (renews op d now h) = renew-Evolves op d now db db' h
Step-Evolves {db} {db'} (begins_launch op now h) = begin_launch-Evolves op now db db' h
Step-Evolves {db} {db'} (records_launch net op id ip nodes now h) =
    record_launch-Evolves net op id ip nodes now db db' h
Step-Evolves {db} {db'} (records_failure op category byte_length now h) =
    record_failure-Evolves op category byte_length now db db' h
Step-Evolves {db} {db'} (releases_lease op now h) = release_lease-Evolves op now db db' h
Step-Evolves {db} {db'} (sets_version op version byte_length now h) =
    set_version-Evolves op version byte_length now db db' h
Step-Evolves {db} {db'} (sets_state op expected next now h) =
    set_state-Evolves op expected next now db db' h
Step-Evolves {db} {db'} (binds c op b now h) = same (bind-operations c op b now db db' h)
Step-Evolves {db} {db'} (pins c op s pinned now h) =
    same (pin-operations c op s pinned now db db' h)
Step-Evolves {db} {db'} (prepares op version now h) =
    same (prepare-operations op version now db db' h)
Step-Evolves {db} {db'} (finalizes release op version now h) =
    finalize-Evolves release op version now db db' h
Step-Evolves {db} {db'} (relabels x id expected revision t launch h) =
    same (relabel-Administered x id expected revision t launch db db' h).operations
Step-Evolves {db} {db'} (admits_cluster cluster_id zone_id lifecycle access h) =
    same (membership-Administered cluster_id zone_id lifecycle access db db' h).operations
Step-Evolves {db} {db'} (bootstraps b c e e' call) =
    subst (λ (d : Db). Evolves d.operations db'.operations) e
      (subst (λ (d : Db). Evolves b.db.operations d.operations) e'
        (BootstrapCall-Written b c call).evolves)
Step-Evolves {db} {db'} (completes op now h) = complete-Evolves op now db db' h

-- Over any sequence of the steps of Capacity.Steps, the operations table develops only by insertions that clash with no
-- row and by updates that keep each row's intent and never lower its fence.
pub Reach-Evolves : {db db' : Db} → Reach db db' → Evolves db.operations db'.operations
Reach-Evolves here = same refl
Reach-Evolves (onward r s) = trans (Reach-Evolves r) (Step-Evolves s)
