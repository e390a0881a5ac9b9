-- ===== src/Capacity/Frame.antt =====
-- store.go, provision_lease.go and provision_handoff.go: the topology, groups and requests over the
-- calls of the workers.
use crane_oss.Base.{
  ℕ, zero, suc, ◌+◌, ◌-◌, String, ℤ, ◌≡◌, Bool, true, false, ltb, List, [], ◌∷◌, arith, Bool-cases,
  inl, inr, ok, >>=-eq-ok, if◌then◌else◌, refuse_if, or_fail,
}
use crane_oss.Api.{
  is_provision, Operation, HostState, ExpectedHostState, NodeRemovalRequest, RemovalNode,
}
use crane_oss.Capacity.Db.{invalid, Db, OperationRow, Host}
use crane_oss.Capacity.Policy.{Env, Policy}
use crane_oss.Capacity.Intents.{
  provision_intent, provision_intents, cancel_intent, cancel_intents, cancelled_intents,
  cancel_pending,
}
use crane_oss.Capacity.Admission.{apply_change}
use crane_oss.Capacity.Leases.{
  Claim, claim, renew, begin_launch, record_provision_failure, release_provision_lease,
  fenced_update,
}
use crane_oss.Capacity.Launch.{Net, record_launch}
use crane_oss.Capacity.Provision.{
  fenced_host_update, set_provision_desired_version, set_provision_state, complete_provision,
  allowed,
}
use crane_oss.Capacity.Binding.{
  Codec, ProvisionBinding, bind_provision_node, pin_provision_expected_state,
}
use crane_oss.Capacity.Handoff.{
  Release, prepare_provision_release, commit_release, finalize_provision,
}
use crane_oss.Capacity.Evolution.{finalize-commit_release}
use crane_oss.Capacity.Removals.{remove_node_intent, remove_node_intents}
pub use crane_oss.Capacity.Unchanged.{
  SameTopology, SameTopology-trans, SamePolicy, SamePolicy-refl, SamePolicy-trans,
  fenced_update-SamePolicy,
}

pub host_update-SamePolicy :
    (p : Host → Bool) (f : Host → Host) (db db' : Db)
    → fenced_host_update p f db ≡ ok db'
    → SamePolicy db db'
unfolding fenced_host_update
host_update-SamePolicy p f db db' h = ground arith

pub claim-SamePolicy :
    (env : Env) (c : Claim) (locked : String → Bool) (op : Operation) (db db' : Db)
    → claim env c locked db ≡ ok (op, db')
    → SamePolicy db db'
unfolding claim
claim-SamePolicy env c locked op db db' h = ground arith

pub renew-SamePolicy :
    (op : Operation) (d : ℤ) (now : ℕ) (db db' : Db)
    → renew op d now db ≡ ok db'
    → SamePolicy db db'
unfolding renew fenced_update
renew-SamePolicy op d now db db' h = ground arith

pub begin_launch-SamePolicy :
    (op : Operation) (now : ℕ) (db db' : Db) → begin_launch op now db ≡ ok db' → SamePolicy db db'
unfolding begin_launch fenced_update
begin_launch-SamePolicy op now db db' h = ground arith

pub record_launch-SamePolicy :
    (net : Net) (op : Operation) (id ip : String) (nodes : List String) (now : ℕ) (db db' : Db)
    → record_launch net op id ip nodes now db ≡ ok db'
    → SamePolicy db db'
unfolding record_launch fenced_update
record_launch-SamePolicy net op id ip nodes now db db' h = ground arith

pub record_failure-SamePolicy :
    (op : Operation) (category : String) (byte_length : String → ℕ) (now : ℕ) (db db' : Db)
    → record_provision_failure op category byte_length now db ≡ ok db'
    → SamePolicy db db'
unfolding record_provision_failure fenced_update
record_failure-SamePolicy op category byte_length now db db' h = ground arith

pub release-SamePolicy :
    (op : Operation) (now : ℕ) (db db' : Db)
    → release_provision_lease op now db ≡ ok db'
    → SamePolicy db db'
unfolding release_provision_lease fenced_update
release-SamePolicy op now db db' h = ground arith

pub set_version-SamePolicy :
    (op : Operation) (version : String) (byte_length : String → ℕ) (now : ℕ) (db db' : Db)
    → set_provision_desired_version op version byte_length now db ≡ ok db'
    → SamePolicy db db'
unfolding set_provision_desired_version fenced_host_update
set_version-SamePolicy op version byte_length now db db' h = ground arith

pub set_state-SamePolicy :
    (op : Operation) (expected to : HostState) (now : ℕ) (db db' : Db)
    → set_provision_state op expected to now db ≡ ok db'
    → SamePolicy db db'
unfolding set_provision_state fenced_host_update
set_state-SamePolicy op expected to now db db' h =
    let (_, _, h1) =
      >>=-eq-ok (refuse_if (if is_provision op.kind then false else true) invalid) _ h in
    let (handoff, _, h2) = >>=-eq-ok (or_fail (allowed expected to) invalid) _ h1 in
    ground (arith, h2)

pub bind-SamePolicy :
    (c : Codec) (op : Operation) (b : ProvisionBinding) (now : ℕ) (db db' : Db)
    → bind_provision_node c op b now db ≡ ok db'
    → SamePolicy db db'
unfolding bind_provision_node
bind-SamePolicy c op b now db db' h = ground arith

pub pin-SamePolicy :
    (c : Codec) (op : Operation) (s pinned : ExpectedHostState) (now : ℕ) (db db' : Db)
    → pin_provision_expected_state c op s now db ≡ ok (pinned, db')
    → SamePolicy db db'
unfolding pin_provision_expected_state
pin-SamePolicy c op s pinned now db db' h = ground arith

pub prepare-SamePolicy :
    (op : Operation) (version : String) (now : ℕ) (db db' : Db)
    → prepare_provision_release op version now db ≡ ok db'
    → SamePolicy db db'
unfolding prepare_provision_release
prepare-SamePolicy op version now db db' h = ground arith

pub finalize-SamePolicy :
    (release : Release) (op : Operation) (version : String) (now : ℕ) (db db' : Db)
    → finalize_provision release op version now db ≡ ok db'
    → SamePolicy db db'
unfolding commit_release
finalize-SamePolicy release op version now db db' h =
    let (_, _, _, _, committed) = finalize-commit_release release op version now db db' h in
    let (mid, e, h1) = >>=-eq-ok (fenced_host_update _ _ db) _ committed in
    SamePolicy-trans db mid db' (host_update-SamePolicy _ _ db mid e)
      (fenced_update-SamePolicy _ _ mid db' h1)

pub complete-SamePolicy :
    (op : Operation) (now : ℕ) (db db' : Db)
    → complete_provision op now db ≡ ok db'
    → SamePolicy db db'
unfolding complete_provision fenced_update
complete-SamePolicy op now db db' h = ground arith

provision_intent-SamePolicy :
    (env : Env) (p : Policy) (request_id : String) (revision k : ℕ) (db db' : Db)
    → provision_intent env p request_id revision k db ≡ ok db'
    → SamePolicy db db'
unfolding provision_intent
provision_intent-SamePolicy env p request_id revision k db db' h = ground arith

provision_intents-SamePolicy :
    (env : Env) (p : Policy) (request_id : String) (revision n k : ℕ) (db db' : Db)
    → provision_intents env p request_id revision n k db ≡ ok db'
    → SamePolicy db db'
unfolding provision_intents
provision_intents-SamePolicy env p request_id revision zero k db db' h = ground arith
provision_intents-SamePolicy env p request_id revision (suc n) k db db' h =
    let (mid, first, rest) = >>=-eq-ok (provision_intent env p request_id revision k db) _ h in
    SamePolicy-trans db mid db'
      (provision_intent-SamePolicy env p request_id revision k db mid first)
      (provision_intents-SamePolicy env p request_id revision n (k + 4) mid db' rest)

cancel_intents-SamePolicy :
    (now : ℕ) (is : List OperationRow) (db : Db) → SamePolicy db (cancel_intents now is db)
unfolding cancel_intents cancel_intent
cancel_intents-SamePolicy now [] db = SamePolicy-refl db
cancel_intents-SamePolicy now (i ∷ is) db =
    SamePolicy-trans db (cancel_intent now i db) _ (ground arith)
      (cancel_intents-SamePolicy now is (cancel_intent now i db))

cancel_pending-SamePolicy :
    (env : Env) (group_id : String) (count : ℕ) (db : Db)
    → SamePolicy db (cancel_pending env group_id count db)
unfolding cancel_pending
cancel_pending-SamePolicy env group_id count db =
    SamePolicy-trans db (cancel_intents env.now (cancelled_intents env group_id count db) db) _
      (cancel_intents-SamePolicy env.now (cancelled_intents env group_id count db) db)
      (ground arith)

pub apply_change-SamePolicy :
    (env : Env) (p : Policy) (desired revision : ℕ) (db db' : Db)
    → apply_change env p desired revision db ≡ ok db'
    → SamePolicy db db'
unfolding apply_change
apply_change-SamePolicy env p desired revision db db' h =
    elim (Bool-cases (ltb p.group.target_nodes desired)) [
      | inl up ↦ provision_intents-SamePolicy env p (env.uuid 0) revision _ 1 db db' (rw up at h)
      | inr not_up ↦
          ground
            (arith, cancel_pending-SamePolicy env p.group.id (p.group.target_nodes - desired) db)
    ]

remove_node_intent-SamePolicy :
    (env : Env) (req : NodeRemovalRequest) (zone_id : String) (revision k : ℕ) (n : RemovalNode)
    (id : String) (db db' : Db)
    → remove_node_intent env req zone_id revision k (n, id) db ≡ ok db'
    → SamePolicy db db'
unfolding remove_node_intent
remove_node_intent-SamePolicy env req zone_id revision k n id db db' h = ground arith

pub remove_node_intents-SamePolicy :
    (env : Env) (req : NodeRemovalRequest) (zone_id : String) (revision k : ℕ)
    (nodes : List (RemovalNode × String)) (db db' : Db)
    → remove_node_intents env req zone_id revision k nodes db ≡ ok db'
    → SamePolicy db db'
unfolding remove_node_intents
remove_node_intents-SamePolicy env req zone_id revision k [] db db' h = ground arith
remove_node_intents-SamePolicy env req zone_id revision k ((n, id) ∷ ns) db db' h =
    let (mid, first, rest) =
      >>=-eq-ok (remove_node_intent env req zone_id revision k (n, id) db) _ h in
    SamePolicy-trans db mid db'
      (remove_node_intent-SamePolicy env req zone_id revision k n id db mid first)
      (remove_node_intents-SamePolicy env req zone_id revision (k + 2) ns mid db' rest)
