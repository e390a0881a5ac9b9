-- ===== src/Capacity/Scenarios.antt =====
-- A small store to run the theorems on: one zone with its cluster, pool and group, and its
-- Dominator's two claims of the operation that a first request creates.
use crane_oss.Base.{
  ℕ, ◌+◌, ◌≤◌, arith, zero, suc, String, pos, ◌≡◌, refl, Bool, true, false, Option, none, some, [],
  ◌∷◌, Result, ok, err,
}
use crane_oss.Base.Rows.{All, Grows, Unique}
use crane_oss.Api.{provision, leased, Operation, CapacityRequest, CapacityResult, template}
use crane_oss.Capacity.Db.{
  Error, no_rows, replay_mismatch, Db, MembershipState, AccessState, NodeGroup, OperationRow,
}
use crane_oss.Capacity.Policy.{Env, Policy, load_policy, join_policy, check_reservations, used}
use crane_oss.Capacity.Intents.{provision_intent, provision_intents}
use crane_oss.Capacity.Admission.{
  find_request, admissible, with_pool_limit, check_change, insert_request, apply_change, admit,
  set_target,
}
use mathlib.Core.List.{Memᴰ}
use crane_oss.Capacity.Leases.{held_operation, claim_row, Claim, claimable, next_claim, claim}
use crane_oss.Capacity.Steps.{Reach, here, onward, sets_target, claims, admits_cluster}
use crane_oss.Capacity.Catalog.{update_cluster_zone}
use crane_oss.Capacity.Operations.{Evolves}
use crane_oss.Capacity.Evolution.{Reach-Evolves}
use crane_oss.Capacity.Groups.{GroupLater}
use crane_oss.Capacity.Targets.{Reach-GroupLater}
use crane_oss.Capacity.Retries.{set_target-retry, set_target-reused_id}
use crane_oss.Capacity.Fencing.{Stale}
use crane_oss.Capacity.Fencing.Worker.{advance-Stale}
use crane_oss.Capacity.Worker.{Surroundings, advance}
use crane_oss.Capacity.Leases.Order.{claim-oldest}
use crane_oss.Capacity.Admission.Room.{set_target-HasRoom}
use crane_oss.Capacity.Policy.Bounds.{HasRoom, check_reservations-HasRoom}
use crane_oss.Capacity.Fencing.Refusals.{IsFencedOut, takeover-IsFencedOut}

abbrev pub unary : ℕ → String
unary zero = "u0"
unary (suc zero) = "u1"
unary (suc (suc zero)) = "u2"
unary (suc (suc (suc zero))) = "u3"
unary (suc (suc (suc (suc n)))) = "u4"

abbrev pub at : ℕ → Env
at t = record { text_le = λ a b. true; image_id = λ j. "ami-1"; now = t; uuid = unary }

abbrev pub group : NodeGroup
group = record {
  id = "g1";
  cluster_id = "c1";
  zone_id = "z1";
  node_pool_id = "p1";
  capacity_class = "on-demand";
  provider_zone_id = "az1";
  target_nodes = 0;
  target_revision = 0;
  min_nodes = 0;
  max_nodes = 3;
  template_revision = "t1";
  active = true;
  vcpu = 4;
  memory_mib = 8192;
  launch_parameters = "{}";
  scheduling = record {
    instance_type = "m5";
    architecture = "amd64";
    region = "r1";
    zone = "az1";
    labels = [];
    taints = [];
  };
}

abbrev pub start : Db
start = record {
  zones =
      record {
        id = "z1";
        provider = "aws";
        account_id = "1";
        region = "r1";
        provider_zone_id = "az1";
        kubernetes_region = "r1";
        kubernetes_zone = "az1";
        enabled = true;
        lifecycle_ready = true;
      }
      ∷ [];
  clusters =
      record {
        id = "c1";
        api_server_endpoint = "https://api";
        ca_cert_hash = "h";
        lifecycle_ready = true;
      }
      ∷ [];
  memberships =
      record {
        cluster_id = "c1";
        zone_id = "z1";
        lifecycle_state = MembershipState.ready;
        access_state = AccessState.approved;
      }
      ∷ [];
  pools =
      record {
        id = "p1";
        enabled = true;
        limits = record { vcpu = 16; memory_mib = 32768; nodes = 2 };
      }
      ∷ [];
  groups = group ∷ [];
  dominators =
      record {
        zone_id = "z1";
        endpoint = "https://dom-a";
        identity = "dom-a";
        observability_status = "configuration_pending";
      }
      ∷ [];
  requests = [];
  operations = [];
  hosts = [];
  reservations = [];
  provisioning = [];
  removals = [];
}

abbrev pub request : CapacityRequest
request = record {
  node_group_id = "g1";
  request_id = "r1";
  cluster_id = "c1";
  expected_target_revision = pos 0;
  desired_target = pos 1;
  template_revision = "t1";
}

abbrev answer : CapacityResult
answer = record { request_id = "r1"; node_group_id = "g1"; target_nodes = 1; target_revision = 1 }

abbrev left_by {ℓ} : {A : Type ℓ} → Result Error (A × Db) → Db
left_by (ok (a, db)) = db
left_by (err e) = start

abbrev operation_of : Result Error (Operation × Db) → Option Operation
operation_of (ok (op, db)) = some op
operation_of (err e) = none

admitted : Db
admitted = left_by (set_target (at 100) request start)

abbrev claimant : String → Claim
claimant owner = record {
  zone_id = "z1";
  kind = provision;
  owner = owner;
  duration = pos 2_000_000_000;
  authorize = true;
}

abbrev unlocked : String → Bool
unlocked id = false

-- A worker's hold on the operation, at its first claim and at the second one.
abbrev hold : String → ℕ → ℕ → Operation
hold owner until fence = record {
  id = "u2";
  kind = provision;
  zone_id = "z1";
  node_group_id = "g1";
  host_id = "u1";
  capacity_request_id = "u0";
  target_revision = 1;
  state = leased;
  provider_token = "u3";
  parameters = template (record {
    launch_parameters = "{}";
    scheduling = group.scheduling;
    template_revision = "t1";
    capacity_class = "on-demand";
  });
  lease_owner = owner;
  lease_until = until;
  fence = fence;
  last_error = "";
}

claimed_once : Db
claimed_once = left_by (claim (at 200) (claimant "dom-a") unlocked admitted)

claimed_twice : Db
claimed_twice = left_by (claim (at 9000) (claimant "dom-a") unlocked claimed_once)

admits : set_target (at 100) request start ≡ ok (answer, admitted)
unfolding admitted set_target load_policy join_policy find_request admit admissible with_pool_limit
    check_change check_reservations used insert_request apply_change provision_intents
    provision_intent
admits = refl

first_claim :
    claim (at 200) (claimant "dom-a") unlocked admitted ≡ ok (hold "dom-a" 2200 1, claimed_once)
unfolding claimed_once admitted set_target load_policy join_policy find_request admit admissible
    with_pool_limit check_change check_reservations used insert_request apply_change
    provision_intents provision_intent claim next_claim
first_claim = refl

second_claim :
    claim (at 9000) (claimant "dom-a") unlocked claimed_once
    ≡ ok (hold "dom-a" 11000 2, claimed_twice)
unfolding claimed_twice claimed_once admitted set_target load_policy join_policy find_request admit
    admissible with_pool_limit check_change check_reservations used insert_request apply_change
    provision_intents provision_intent claim next_claim
second_claim = refl

ids-Unique : Unique (λ (o : OperationRow). o.id) admitted.operations
unfolding admitted set_target load_policy join_policy find_request admit admissible with_pool_limit
    check_change check_reservations used insert_request apply_change provision_intents
    provision_intent
ids-Unique = (refl, tt)

pub groups-Unique : Unique (λ (g : NodeGroup). g.id) start.groups
groups-Unique = (refl, tt)

-- The first claim's holder, after the second.
takeover-IsFencedOut_example : IsFencedOut (hold "dom-a" 2200 1) claimed_twice
takeover-IsFencedOut_example =
    takeover-IsFencedOut admitted claimed_once claimed_once claimed_twice claimed_twice (at 200)
      (at 9000) (claimant "dom-a") (claimant "dom-a") unlocked unlocked (hold "dom-a" 2200 1)
      (hold "dom-a" 11000 2) ids-Unique first_claim here second_claim refl here

history : Reach start claimed_twice
history =
    onward
      (onward (onward here (sets_target (at 100) request answer admits))
        (claims (at 200) (claimant "dom-a") unlocked (hold "dom-a" 2200 1) first_claim))
      (claims (at 9000) (claimant "dom-a") unlocked (hold "dom-a" 11000 2) second_claim)

Reach-Evolves_example : Evolves start.operations claimed_twice.operations
Reach-Evolves_example = Reach-Evolves history

Reach-GroupLater_example : Grows GroupLater start.groups claimed_twice.groups
Reach-GroupLater_example = Reach-GroupLater start claimed_twice groups-Unique history

after_admission : Reach admitted claimed_twice
after_admission =
    onward
      (onward here (claims (at 200) (claimant "dom-a") unlocked (hold "dom-a" 2200 1) first_claim))
      (claims (at 9000) (claimant "dom-a") unlocked (hold "dom-a" 11000 2) second_claim)

-- Then an operator revokes the cluster's access to the zone.
abbrev revoked : Db
revoked = record claimed_twice {
  memberships =
      record {
        cluster_id = "c1";
        zone_id = "z1";
        lifecycle_state = MembershipState.ready;
        access_state = AccessState.revoked;
      }
      ∷ [];
}

revokes : update_cluster_zone "c1" "z1" "ready" "revoked" claimed_twice ≡ ok revoked
unfolding update_cluster_zone claimed_twice claimed_once admitted set_target load_policy join_policy
    find_request admit admissible with_pool_limit check_change check_reservations used
    insert_request apply_change provision_intents provision_intent claim next_claim
revokes = refl

after_revocation : Reach admitted revoked
after_revocation = onward after_admission (admits_cluster "c1" "z1" "ready" "revoked" revokes)

set_target-retry_example : set_target (at 9500) request revoked ≡ ok (answer, revoked)
set_target-retry_example =
    set_target-retry (at 100) (at 9500) request answer start admitted revoked groups-Unique admits
      after_revocation

set_target-reused_id_example :
    set_target (at 9500) (record request { desired_target = pos 2 }) revoked ≡ err replay_mismatch
set_target-reused_id_example =
    set_target-reused_id (at 100) (at 9500) request (record request { desired_target = pos 2 })
      answer start admitted revoked groups-Unique admits after_revocation refl refl refl refl refl

claim-oldest_example :
    (row : OperationRow) × Memᴰ row admitted.operations
    × (hold "dom-a" 2200 1
        ≡ held_operation
            (claimant "dom-a")
            200
            (claim_row (at 200) (claimant "dom-a") admitted row))
    × (claimable (claimant "dom-a") unlocked 200 admitted row ≡ true)
    × All
        (λ (o : OperationRow).
          claimable (claimant "dom-a") unlocked 200 admitted o ≡ true
          → row.created_at ≤ o.created_at)
        admitted.operations
claim-oldest_example =
    claim-oldest (at 200) (claimant "dom-a") unlocked admitted (hold "dom-a" 2200 1) claimed_once
      first_claim

abbrev policy : Policy
policy = record {
  group = group;
  pool_limit = record { vcpu = 16; memory_mib = 32768; nodes = 2 };
  enabled = true;
}

room : check_reservations policy 2 start ≡ ok tt
unfolding check_reservations used
room = refl

check_reservations-HasRoom_example : HasRoom policy 2 (used "p1" start)
check_reservations-HasRoom_example =
    check_reservations-HasRoom policy 2 start (omega arith) (omega arith) room

stale : Stale (hold "dom-a" 2200 1) claimed_twice
unfolding claimed_twice claimed_once admitted set_target load_policy join_policy find_request admit
    admissible with_pool_limit check_change check_reservations used insert_request apply_change
    provision_intents provision_intent claim next_claim
stale = record { known = refl; fence_le = (λ e. omega arith, tt) }

-- A provider that fails every call, in a worker that goes on after it has lost its lease.
abbrev surroundings : Surroundings
surroundings = record {
  clock = λ k. 9100 + k;
  net = record { is_private = λ a. true; join_subd_port = λ a. a };
  byte_length = λ t. 1;
  json_valid = λ t. true;
  executor = record {
    launch = λ op. err no_rows;
    enroll_and_join = λ op h. some no_rows;
    is_ready = λ op h. err no_rows;
    release = λ op h deadline. (some no_rows, 0);
  };
}

advance-Stale_example : (advance surroundings (hold "dom-a" 2200 1) claimed_twice).1 ≡ claimed_twice
advance-Stale_example = advance-Stale surroundings (hold "dom-a" 2200 1) claimed_twice stale

missing : find_request "g1" "r1" start ≡ none
unfolding find_request
missing = refl

loaded : load_policy "g1" start ≡ ok policy
unfolding load_policy join_policy
loaded = refl

limits : with_pool_limit policy start ≡ ok policy
unfolding with_pool_limit
limits = refl

set_target-HasRoom_example : HasRoom policy 1 (used "p1" start)
set_target-HasRoom_example =
    set_target-HasRoom (at 100) request start answer admitted policy policy admits missing loaded
      limits (omega arith) (omega arith) (omega arith)
