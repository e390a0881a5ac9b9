-- ===== src/Capacity/Leases.antt =====
-- store.go and provision_lease.go: operations are claimed for a time under a growing fence, and
-- every later write of the worker names its owner and fence.
pub mod Order
use crane_oss.Base.{
  ℕ, ◌+◌, ◌/◌, String, ℤ, pos_part, Bool, true, false, ◌&&◌, ◌||◌, Option, none, some, List, [],
  ◌∷◌, ◌==◌, ltb, leb, eqb, if◌then◌else◌, Result, ok, err, ◌>>=◌, ◌>>◌, refuse_if, or_fail,
}
use crane_oss.Base.Tables.{any, filter, count, update, sort_by}
use crane_oss.Base.Sorting.{first}
use crane_oss.Api.{
  HostState, booting, registering, converging, Kind, create_cluster, provision, remove_node,
  pending, leased, launching, Operation, is_provision, same_kind, is_pending, is_launching, is_held,
}
use crane_oss.Capacity.Db.{
  Error, invalid, forbidden, fenced, no_rows, invalid_lease, Db, NodeGroup, ClusterZone,
  OperationRow, Host, ZoneDominator,
}
use crane_oss.Capacity.Policy.{Env, approved_ready, member_of}

-- A fenced statement changes exactly one row, or the worker has lost its operation. The tests name
-- the primary key, so that no more than one row can pass.
unfoldable pub fenced_update :
    (OperationRow → Bool) → (OperationRow → OperationRow) → Db → Result Error Db
fenced_update p f db =
    if eqb (count p db.operations) 1
    then ok (record db { operations = update p f db.operations })
    else err fenced

-- lease_owner=… AND lease_until>clock_timestamp()
abbrev pub lease_held : OperationRow → String → ℕ → Bool
lease_held o owner now = elim o.lease [
  | none ↦ false
  | some l ↦ l.owner == owner && ltb now l.until
]

-- id=$1 AND lease_owner=$2 AND fence=$3 AND lease_until>clock_timestamp()
abbrev pub holds : Operation → ℕ → OperationRow → Bool
holds op now o = o.id == op.id && eqb o.fence op.fence && lease_held o op.lease_owner now

-- The zone's registered Dominator, and an approved and ready membership of the group's cluster.
abbrev pub authorized : Db → OperationRow → String → Bool
authorized db o owner =
    any (λ (d : ZoneDominator). d.zone_id == o.zone_id && d.identity == owner) db.dominators
    && any
        (λ (g : NodeGroup).
          g.id == o.group_id
          && g.zone_id == o.zone_id
          && any (λ (m : ClusterZone). member_of g m && approved_ready m) db.memberships)
        db.groups

-- h.state IN ('BOOTING','REGISTERING','CONVERGING')
abbrev pub is_joining : HostState → Bool
is_joining booting = true
is_joining registering = true
is_joining converging = true
is_joining _ = false

abbrev pub beyond_launch : Db → OperationRow → Bool
beyond_launch db o = any (λ (h : Host). h.id == o.host_id && is_joining h.state) db.hosts

-- duration < time.Millisecond || duration > 24*time.Hour, in nanoseconds.
abbrev pub bad_duration : ℤ → Bool
bad_duration d = ltb (pos_part d) 1_000_000 || ltb 86_400_000_000_000 (pos_part d)

abbrev pub milliseconds : ℤ → ℕ
milliseconds d = pos_part d / 1_000_000

abbrev pub lease_over : OperationRow → ℕ → Bool
lease_over o now = elim o.lease [ none ↦ true | some l ↦ leb l.until now ]

pub record Claim : Type 0 where
  pub zone_id : String
  pub kind : Kind
  pub owner : String
  pub duration : ℤ
  pub authorize : Bool

-- `locked` are the rows that other transactions hold, which SKIP LOCKED passes over.
abbrev pub claimable : Claim → (String → Bool) → ℕ → Db → OperationRow → Bool
claimable c locked now db o =
    o.zone_id == c.zone_id
    && same_kind o.kind c.kind
    && (is_pending o.state || (is_held o.state && lease_over o now))
    && (if c.authorize then authorized db o c.owner else true)
    && (if locked o.id then false else true)

abbrev pub oldest_first : Env → OperationRow → OperationRow → Bool
oldest_first env a b =
    ltb a.created_at b.created_at || (eqb a.created_at b.created_at && env.text_le a.id b.id)

unfoldable pub next_claim : Env → Claim → (String → Bool) → Db → Option OperationRow
next_claim env c locked db =
    first (sort_by (oldest_first env) (filter (claimable c locked env.now db) db.operations))

abbrev pub claim_row : Env → Claim → Db → OperationRow → OperationRow
claim_row env c db o = record o {
  state = if is_provision o.kind && beyond_launch db o then launching else leased;
  lease = some (record { owner = c.owner; until = env.now + milliseconds c.duration });
  fence = o.fence + 1;
  updated_at = env.now;
}

-- RETURNING …, scanned into the worker's operation.
abbrev pub held_operation : Claim → ℕ → OperationRow → Operation
held_operation c now o = record {
  id = o.id;
  kind = o.kind;
  zone_id = o.zone_id;
  node_group_id = o.group_id;
  host_id = o.host_id;
  capacity_request_id = o.capacity_request_id;
  target_revision = o.target_revision;
  state = o.state;
  provider_token = o.provider_token;
  parameters = o.parameters;
  lease_owner = c.owner;
  lease_until = now + milliseconds c.duration;
  fence = o.fence;
  last_error = o.last_error;
}

unfoldable pub claim : Env → Claim → (String → Bool) → Db → Result Error (Operation × Db)
claim env c locked db = do
  refuse_if (c.zone_id == "" || c.owner == "" || bad_duration c.duration) invalid_lease
  o ← or_fail (next_claim env c locked db) no_rows
  ok (
    held_operation c env.now (claim_row env c db o),
    record db {
      operations = update (λ (r : OperationRow). r.id == o.id) (claim_row env c db) db.operations;
    },
  )

-- Claim: bootstrap work, before a zone Dominator exists.
unfoldable pub claim_bootstrap :
    Env → String → Kind → String → ℤ → (String → Bool) → Db → Result Error (Operation × Db)
claim_bootstrap env zone_id kind owner duration locked db = do
  refuse_if (if same_kind kind create_cluster then false else true) forbidden
  claim env
      (record {
        zone_id = zone_id;
        kind = kind;
        owner = owner;
        duration = duration;
        authorize = false;
      })
      locked db

-- ClaimDominator.
unfoldable pub claim_dominator :
    Env → String → Kind → String → ℤ → (String → Bool) → Db → Result Error (Operation × Db)
claim_dominator env zone_id kind identity duration locked db = do
  refuse_if (if same_kind kind provision || same_kind kind remove_node then false else true)
      forbidden
  claim env
      (record {
        zone_id = zone_id;
        kind = kind;
        owner = identity;
        duration = duration;
        authorize = true;
      })
      locked db

abbrev is_bootstrap : Kind → Bool
is_bootstrap k = same_kind k Kind.create_cluster || same_kind k Kind.attach_zone

abbrev pub dominated : Db → OperationRow → Bool
dominated db o = elim o.lease [ none ↦ false | some l ↦ authorized db o l.owner ]

unfoldable pub renew : Operation → ℤ → ℕ → Db → Result Error Db
renew op duration now db = do
  refuse_if (bad_duration duration) invalid_lease
  fenced_update (λ o. holds op now o && is_held o.state && (is_bootstrap o.kind || dominated db o))
      (λ o. record o {
        lease = some (record { owner = op.lease_owner; until = now + milliseconds duration });
        updated_at = now;
      })
      db

unfoldable pub begin_launch : Operation → ℕ → Db → Result Error Db
begin_launch op now = λ db.
    fenced_update (λ o. holds op now o && is_held o.state && dominated db o)
      (λ o. record o { state = launching; updated_at = now }) db

-- RecordProvisionFailure: `category` is at most 80 bytes long.
unfoldable pub record_provision_failure :
    Operation → String → (String → ℕ) → ℕ → Db → Result Error Db
record_provision_failure op category byte_length now db = do
  refuse_if (category == "" || ltb 80 (byte_length category)) invalid
  fenced_update (λ o. is_provision o.kind && holds op now o && is_held o.state)
      (λ o. record o { last_error = category; updated_at = now }) db

unfoldable pub release_provision_lease : Operation → ℕ → Db → Result Error Db
release_provision_lease op now db =
    fenced_update (λ o. is_provision o.kind && holds op now o && is_held o.state)
      (λ o. record o {
        state = if beyond_launch db o then launching else pending;
        lease = none;
        updated_at = now;
      })
      db

abbrev pub confirms : Operation → String → ℕ → Db → OperationRow → Bool
confirms op cluster_id now db o =
    holds op now o
    && o.host_id == op.host_id
    && is_provision o.kind
    && is_launching o.state
    && any
        (λ (g : NodeGroup).
          g.id == o.group_id
          && g.cluster_id == cluster_id
          && any (λ (m : ClusterZone). member_of g m && approved_ready m) db.memberships)
        db.groups

-- CheckProvisionLease: a read that a worker makes before an external effect. `cluster_id` is the
-- cluster that LoadProvisioningTarget put into the operation.
unfoldable pub check_provision_lease : Operation → String → ℕ → Db → Result Error (Unit {0})
check_provision_lease op cluster_id now db =
    if any (confirms op cluster_id now db) db.operations then ok tt else err fenced
