-- ===== src/HostOperations/Scenarios.antt =====
-- A Dominator with one host and its agent, to run the theorems on.
use crane_oss.Base.{◌≡◌, refl, true, false, none, some, [], ◌∷◌}
use crane_oss.Base.Rows.{Grows}
use crane_oss.Api.{ready, ExpectedHostState, KubernetesSecret}
use crane_oss.Capacity.Db.{Db, Host}
use crane_oss.Agent.Request.{Syntax, normalize, validate_expected}
use crane_oss.Agent.State.{stored, Agent, status}
use crane_oss.Agent.Server.{Surroundings, read_request, accept, locked, conclude, update}
use crane_oss.Agent.History.{here, new_agent}
use crane_oss.Agent.Invariant.{Logged}
use crane_oss.HostOperations.Store.{
  failed_request, Store, load_target, find_state_request, max_revision,
}
use crane_oss.HostOperations.Controller.{
  SecretRequest, Controller, Weather, Caller, Executed, normalize_request, prepare, persist,
  execute,
}
use crane_oss.HostOperations.Revisions.{SameRequest, Ascending, execute-Ascending, execute-Grows}
use crane_oss.HostOperations.Enforcement.{delivered_call, agent_caller, execute-enforced}

abbrev syntax : Syntax
syntax = record {
  is_service_name = λ s. true;
  is_package_name = λ s. true;
  is_dns_label = λ s. true;
  is_dns_subdomain = λ s. true;
  is_qualified_name = λ s. true;
  is_config_map_key = λ s. true;
  byte_length = λ s. 3;
  digest = λ e. e.version;
}

abbrev secret : KubernetesSecret
secret = record {
  namespace = "crane-system";
  name = "s";
  type = "Opaque";
  entries = ("a", "1") ∷ [];
  string_data = [];
  rollout_deployment = "";
}

abbrev host : Host
host = record {
  id = "h1";
  zone = "z1";
  state = ready;
  role = "worker";
  image_id = "ami";
  created_at = 1;
  provider = "aws";
  provider_id = "i-1";
  endpoint = "";
  subd_endpoint = "https://10.0.0.1";
  kubernetes_provider_id = "";
  protected = false;
  node_group_id = "";
  node_pool_id = "";
  crane_zone = "z1";
  operation_id = "";
  desired_state_version = "";
  observed_state_version = "";
  reserved_vcpu = 0;
  reserved_memory_mib = 0;
  excess_capacity = false;
}

abbrev db : Db
db = record {
  zones = [];
  clusters = [];
  memberships = [];
  pools = [];
  groups = [];
  dominators =
      record {
        zone_id = "z1";
        endpoint = "https://dom";
        identity = "dom";
        observability_status = "configuration_pending";
      }
      ∷ [];
  requests = [];
  operations = [];
  hosts = host ∷ [];
  reservations = [];
  provisioning = [];
  removals = [];
}

abbrev store : Store
store = record {
  db = db;
  state_requests =
      record {
        host_id = "h1";
        request_id = "old";
        fingerprint = "f";
        revision = 4;
        outcome = failed_request;
        result = none;
      }
      ∷ [];
}

abbrev controller : Controller
controller = record {
  zone_id = "z1";
  own_identity = "dom";
  peer = λ provider_id. some "subd";
  fingerprint = λ s. s.name;
}

abbrev fair : Weather
fair = record {
  lock_error = none;
  select_ok = true;
  maximum_ok = true;
  insert_ok = true;
  update_ok = true;
  observability_ok = true;
  commit_ok = true;
  deadline_passed = false;
}

abbrev surroundings : Surroundings
surroundings = record {
  accept_write = stored;
  accept_published = true;
  applies = true;
  ensures_secrets = true;
  secret_result = some (record { secret = "verified"; rollout = "not_requested" });
  secret_ensured = true;
  outcome_write = stored;
  outcome_published = true;
}

abbrev request : SecretRequest
request = record { request_id = "r1"; secret = secret }

abbrev caller : Caller Agent
caller = agent_caller syntax surroundings false delivered_call delivered_call

abbrev agent : Agent
agent = new_agent "subd"

abbrev executed : Executed Agent
executed = execute fair caller syntax controller "h1" request store agent

execute-enforced_example :
    (e : ExpectedHostState) × Logged e executed.state.enforced
    × (e.revision ≡ executed.result.revision)
unfolding execute prepare normalize_request normalize load_target find_state_request max_revision
    persist update locked conclude accept read_request validate_expected status
execute-enforced_example =
    execute-enforced fair syntax surroundings false delivered_call delivered_call "subd" agent
      controller "h1" request store here (λ old e. cc) refl

execute-Ascending_example : Ascending executed.store.state_requests
execute-Ascending_example =
    execute-Ascending fair caller syntax controller "h1" request store agent (tt, tt)

execute-Grows_example : Grows SameRequest store.state_requests executed.store.state_requests
execute-Grows_example = execute-Grows fair caller syntax controller "h1" request store agent
