-- ===== src/Bootstrap/Scenarios.antt =====
-- A zone whose bootstrap waits for its validation, to run the theorems on.
use crane_oss.Bootstrap.Queue.{next_bootstrap_zone-claimed}
use crane_oss.Base.{pos, ◌≡◌, refl, true, false, none, [], ◌∷◌, ok, arith}
use crane_oss.Base.Rows.{Grows}
use crane_oss.Api.{create_cluster, pending, bootstrap, Operation}
use crane_oss.Capacity.Db.{Db, OperationRow, MembershipState, AccessState}
use crane_oss.Capacity.Leases.{claim_bootstrap, claim, next_claim}
use crane_oss.Capacity.Scenarios.{at, start}
use crane_oss.Bootstrap.Store.{
  BootstrapDb, validating, zone_ready, bootstrap_phase, next_bootstrap_zone,
}
use crane_oss.Bootstrap.Records.{Addresses, load_bootstrap_target}
use crane_oss.Bootstrap.Controller.{BootstrapExecutor, RoundClocks, run_once}
use crane_oss.Bootstrap.Phases.{Moves}
use crane_oss.Bootstrap.Rounds.{WasValidated, run_once-Moves}

abbrev operation : OperationRow
operation = record {
  id = "o1";
  kind = create_cluster;
  zone_id = "z1";
  group_id = "";
  host_id = "";
  capacity_request_id = "";
  target_revision = 0;
  state = pending;
  provider_token = "";
  parameters = bootstrap "{}";
  lease = none;
  fence = 6;
  last_error = "";
  created_at = 10;
  updated_at = 10;
}

abbrev unready : Db
unready = record start {
  operations = operation ∷ [];
  memberships =
      record {
        cluster_id = "c1";
        zone_id = "z1";
        lifecycle_state = MembershipState.initializing;
        access_state = AccessState.pending;
      }
      ∷ [];
}

abbrev before_ready : BootstrapDb
before_ready = record {
  db = unready;
  bootstraps =
      record { operation_id = "o1"; zone_id = "z1"; cluster_id = "c1"; phase = validating } ∷ [];
  initializing_zones = "z1" ∷ [];
  initializing_clusters = "c1" ∷ [];
}

abbrev addresses : Addresses
addresses = record {
  is_private_https = λ a. true;
  is_private_ip = λ a. true;
  is_ca_hash = λ h. true;
  is_instance_id = λ i. true;
  is_dominator_endpoint = λ e. true;
  identity_path = λ i. none;
}

abbrev willing : BootstrapExecutor
willing = record {
  step = λ op c phase. ok (record {
    api_server_endpoint = "";
    ca_cert_hash = "";
    provider_host_id = "";
    host_private_ip = "";
    image_id = "";
    dominator_endpoint = "";
    dominator_identity = "";
  });
  validated = λ op c. ok true;
}

abbrev turn : RoundClocks
turn = record {
  env = at 100;
  locked = λ id. false;
  recorded_at = 110;
  moved_at = 120;
  released_at = 130;
  lease = pos 0;
}

ends_ready :
    (run_once addresses willing turn "z1" "w1" before_ready).0.bootstraps
    ≡ record { operation_id = "o1"; zone_id = "z1"; cluster_id = "c1"; phase = zone_ready } ∷ []
unfolding run_once claim_bootstrap claim next_claim load_bootstrap_target bootstrap_phase
ends_ready = refl

run_once-Moves_example :
    Grows
      (Moves (WasValidated willing))
      before_ready.bootstraps
      (run_once addresses willing turn "z1" "w1" before_ready).0.bootstraps
run_once-Moves_example = run_once-Moves addresses willing turn "z1" "w1" before_ready (refl, tt)

named : next_bootstrap_zone (at 90) before_ready ≡ ok "z1"
unfolding next_bootstrap_zone
named = refl

next_bootstrap_zone-claimed_example :
    (out : Operation × Db) × (claim_bootstrap
        (at 100)
        "z1"
        create_cluster
        "w1"
        (pos 120_000_000_000)
        (λ id. false)
        unready
      ≡ ok out)
next_bootstrap_zone-claimed_example =
    next_bootstrap_zone-claimed (at 90) (at 100) before_ready "z1" "w1" (pos 120_000_000_000)
      (λ id. false) (omega arith) named refl (λ id. refl)
