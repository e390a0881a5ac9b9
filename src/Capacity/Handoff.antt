-- ===== src/Capacity/Handoff.antt =====
-- provision_handoff.go: the release of a worker is prepared (PrepareProvisionRelease), and committed
-- with the operation's success (FinalizeProvision).
use crane_oss.Base.{
  ℕ, ◌+◌, ◌-◌, String, Bool, true, false, ◌&&◌, Option, none, some, ◌==◌, ltb, eqb, if◌then◌else◌,
  Result, ok, err, ◌>>=◌, refuse_if, or_fail,
}
use crane_oss.Base.Tables.{find, any, count, update}
use crane_oss.Api.{HostState, ready, converging, Operation, is_provision, is_launching}
use crane_oss.Capacity.Db.{
  Error, fenced, external, Db, NodeGroup, ClusterZone, Zone, Cluster, OperationRow, Host,
  ProvisioningState,
}
use crane_oss.Capacity.Policy.{approved_ready, member_of}
use crane_oss.Capacity.Leases.{fenced_update, holds}
use crane_oss.Capacity.Provision.{fenced_host_update, succeed}

-- The operation's group is a member of its zone's cluster, approved and ready.
abbrev pub group_approved : Db → OperationRow → Bool
group_approved db o =
    any
      (λ (g : NodeGroup).
        g.id == o.group_id
        && any (λ (m : ClusterZone). member_of g m && approved_ready m) db.memberships)
      db.groups

abbrev pub is_converging : HostState → Bool
is_converging converging = true
is_converging _ = false

-- b.expected_state->>'version' = v AND b.expected_state->>'revision' = '1'
abbrev pub expects_version : String → ProvisioningState → Bool
expects_version v p = elim p.expected_state [
  | none ↦ false
  | some s ↦ s.version == v && eqb s.revision 1
]

abbrev pub converging_at : String → String → Db → Bool
converging_at host_id v db =
    any (λ (h : Host). h.id == host_id && is_converging h.state && h.desired_state_version == v)
      db.hosts

-- An operation that the worker launches, for which the state was bound.
abbrev pub releases_for : Operation → ℕ → Db → ProvisioningState → OperationRow → Bool
releases_for op now db p o =
    holds op now o
    && is_launching o.state
    && o.id == p.operation_id
    && o.host_id == p.host_id
    && group_approved db o

-- The join of an operation with its host, its bound state and its approved membership.
abbrev pub releasable : Operation → String → ℕ → Db → ProvisioningState → Bool
releasable op v now db p =
    expects_version v p
    && converging_at p.host_id v db
    && any (releases_for op now db p) db.operations

unfoldable pub prepare_provision_release : Operation → String → ℕ → Db → Result Error Db
prepare_provision_release op v now db =
    let p =
      λ (b : ProvisioningState). (if v == "" then false else true) && releasable op v now db b in
    if eqb (count p db.provisioning) 1
    then ok (record db {
      provisioning = update p (λ b. record b { release_started = true }) db.provisioning;
    })
    else err fenced

-- The zone and the cluster of the group must be ready as well.
abbrev pub group_ready : Db → OperationRow → Bool
group_ready db o =
    any
      (λ (g : NodeGroup).
        g.id == o.group_id
        && any (λ (m : ClusterZone). member_of g m && approved_ready m) db.memberships
        && any (λ (z : Zone). z.id == g.zone_id && z.enabled && z.lifecycle_ready) db.zones
        && any (λ (c : Cluster). c.id == g.cluster_id && c.lifecycle_ready) db.clusters)
      db.groups

abbrev pub lasts_beyond : OperationRow → ℕ → Bool
lasts_beyond o time = elim o.lease [ none ↦ false | some l ↦ ltb time l.until ]

abbrev pub lease_end : OperationRow → ℕ
lease_end o = elim o.lease [ none ↦ 0 | some l ↦ l.until ]

-- The row that FinalizeProvision locks: the lease must last one more second.
abbrev pub finalizable : Operation → String → ℕ → Db → OperationRow → Bool
finalizable op v now db o =
    holds op now o
    && o.host_id == op.host_id
    && is_provision o.kind
    && is_launching o.state
    && lasts_beyond o (now + 1000)
    && group_ready db o
    && converging_at o.host_id v db
    && any
        (λ (b : ProvisioningState).
          b.host_id == o.host_id
          && b.operation_id == o.id
          && b.release_started
          && expects_version v b)
        db.provisioning

-- The external release is handed its deadline, and answers with an error or success and the time
-- at which it returned.
abbrev pub Release : Type 0
Release = ℕ → Option Error × ℕ

abbrev pub release_deadline : ℕ → OperationRow → ℕ
release_deadline now o =
    let bounded = now + 20_000 in
    let margin = lease_end o - 1000 in if ltb margin bounded then margin else bounded

abbrev pub ready_row : Host → Host
ready_row h = record h { state = ready; observed_state_version = h.desired_state_version }

-- The two writes after the release, at the time `later`.
unfoldable pub commit_release : Operation → ℕ → Db → Result Error Db
commit_release op later db = do
  released ←
      fenced_host_update
        (λ h.
          is_converging h.state
          && any
              (λ (o : OperationRow).
                o.id == op.id && o.host_id == h.id && lasts_beyond o later && eqb o.fence op.fence)
              db.operations)
        ready_row db
  fenced_update (λ o. o.id == op.id && eqb o.fence op.fence) (succeed later) released

-- The rows stay locked from the first read to the commit, so nothing else writes them meanwhile.
unfoldable pub finalize_provision : Release → Operation → String → ℕ → Db → Result Error Db
finalize_provision release op v now db = do
  o ← or_fail (find (finalizable op v now db) db.operations) fenced
  let deadline = release_deadline now o
  let (failure, later) = release deadline
  elim failure [
    | some e ↦ err e
    | none ↦
        refuse_if (if ltb later deadline then false else true) (external "deadline exceeded")
        >>= λ _. commit_release op later db
  ]
