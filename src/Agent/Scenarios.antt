-- ===== src/Agent/Scenarios.antt =====
-- An agent that is asked for two revisions and is restarted, to run the theorems on.
use crane_oss.Base.{
  not, ◌==◌, arith, ℕ, String, ◌≡◌, refl, Bool, true, false, none, some, [], ◌∷◌, ok, pos,
}
use crane_oss.Api.{ExpectedHostState, KubernetesSecret}
use crane_oss.Agent.Request.{Syntax, normalize, validate_expected}
use crane_oss.Agent.Normal.{normalize-normal}
use crane_oss.Agent.State.{Agent, stored, failed_unchanged, new_server, status, restore}
use crane_oss.Agent.Server.{
  Arrival, Surroundings, refused, read_request, accept, locked, conclude, update,
}
use crane_oss.Agent.History.{Reach, here, onward, handles, restarts, new_agent}
use crane_oss.Agent.Invariant.{Logged, mark, Follows}
use crane_oss.Agent.Restart.{started}
use crane_oss.Agent.Register.{Reach-Follows, view-Logged, update-refused}
use crane_oss.Agent.Replay.{update-again, update-enforced}
use crane_oss.Agent.Registration.{WorkerRegistration}
use crane_oss.Agent.Join.{JoinSyntax, JoinArrival, JoinSurroundings, Joiner, cluster_join}
use crane_oss.Agent.Startup.{Installation, Documented, start, start-restarts}
use crane_oss.Agent.JoinOrder.{
  Behind, at_start, then_joins, joins, new_joiner, InOrder, JoinReach-InOrder,
}

abbrev syntax : Syntax
syntax = record {
  is_service_name = λ s. true;
  is_package_name = λ s. true;
  is_dns_label = λ s. true;
  is_dns_subdomain = λ s. true;
  is_qualified_name = λ s. true;
  is_config_map_key = λ s. true;
  byte_length = λ s. 3;
  digest = λ e. e.version;
}

abbrev secret : KubernetesSecret
secret = record {
  namespace = "n";
  name = "s";
  type = "";
  entries = ("a", "1") ∷ [];
  string_data = ("b", "2") ∷ [];
  rollout_deployment = "";
}

abbrev wanted : ℕ → String → ExpectedHostState
wanted revision version = record {
  revision = revision;
  image_id = "ami";
  track = "stable";
  version = version;
  services = ("kubelet.service", true) ∷ [];
  packages = ("curl", "install") ∷ [];
  secret = none;
}

abbrev arrival : ExpectedHostState → Arrival
arrival e = record { deadline_ok = true; body = some e; cancelled = false }

abbrev calm : Surroundings
calm = record {
  accept_write = stored;
  accept_published = true;
  applies = true;
  ensures_secrets = true;
  secret_result = none;
  secret_ensured = true;
  outcome_write = stored;
  outcome_published = true;
}

abbrev full_disk : Surroundings
full_disk = record calm { accept_write = failed_unchanged }

abbrev fresh : Agent
fresh = new_agent "spiffe://crane/subd/i-1"

abbrev updated : Agent
updated = (update syntax calm (arrival (wanted 1 "v1")) fresh).1

abbrev first_update : Reach syntax fresh updated
first_update = onward here (handles calm (arrival (wanted 1 "v1")))

restarted : new_server syntax updated ≡ ok (started updated)
unfolding new_server restore update locked conclude accept read_request validate_expected
restarted = refl

abbrev first_restart : Reach syntax updated (started updated)
first_restart = onward here (restarts restarted)

normalize-normal_example :
    normalize syntax
      (record secret { type = "Opaque"; entries = ("a", "1") ∷ ("b", "2") ∷ []; string_data = [] })
    ≡ ok (record secret {
      type = "Opaque";
      entries = ("a", "1") ∷ ("b", "2") ∷ [];
      string_data = [];
    })
unfolding normalize
normalize-normal_example = normalize-normal syntax secret _ refl

Reach-Follows_example : Follows (mark fresh.saved) (mark updated.saved)
Reach-Follows_example =
    Reach-Follows syntax "spiffe://crane/subd/i-1" fresh updated here first_update

view-Logged_example :
    (e : ExpectedHostState) × Logged e updated.enforced
    × (e.revision ≡ updated.view.accepted_revision)
    × (e.version ≡ updated.view.expected_version)
unfolding update locked conclude accept read_request status validate_expected
view-Logged_example = view-Logged syntax "spiffe://crane/subd/i-1" updated first_update refl

update-refused_example :
    update syntax full_disk (arrival (wanted 1 "v2")) (started updated)
    ≡ (refused 409, started updated)
unfolding update locked conclude accept read_request validate_expected
update-refused_example =
    update-refused syntax "spiffe://crane/subd/i-1" updated (started updated) calm full_disk
      (arrival (wanted 1 "v2")) (wanted 1 "v2") first_update refl refl first_restart

update-again_example : update syntax full_disk (arrival (wanted 1 "v1")) (started updated) ≡ (
  record { code = 200; body = some (status (started updated).identity (started updated).saved) },
  started updated,
)
unfolding update locked conclude accept read_request validate_expected
update-again_example =
    update-again syntax "spiffe://crane/subd/i-1" fresh (started updated) calm full_disk
      (arrival (wanted 1 "v1")) (wanted 1 "v1") here refl refl first_restart refl

update-enforced_example :
    (r : ExpectedHostState) × Logged r updated.enforced
    × (r.revision ≡ 1)
    × (updated.saved.request ≡ r)
    × (updated.saved.digest ≡ "v1")
unfolding update locked conclude accept read_request validate_expected
update-enforced_example =
    update-enforced syntax "spiffe://crane/subd/i-1" fresh calm (arrival (wanted 1 "v1"))
      (wanted 1 "v1") here refl refl

abbrev join_syntax : JoinSyntax
join_syntax = record {
  names = record {
    is_qualified_name = λ s. true;
    is_label_value = λ s. true;
    has_prefix = λ s p. false;
    has_suffix = λ s p. false;
    before_slash = λ s. none;
    worker_node_name = λ s. "crane-1";
  };
  is_operation = λ s. true;
  is_token = λ s. true;
  is_ca_hash = λ s. true;
  is_endpoint = λ s. not (s == "");
  byte_length = λ s. 64;
  fingerprint = λ e c r. e;
}

abbrev registration : WorkerRegistration
registration = record {
  cluster_id = "c1";
  host_id = "h1";
  node_group_id = "g1";
  node_pool_id = "p1";
  template_revision = "t1";
  node_name = "crane-1";
  provider_id = "aws:///az1/i-1";
  scheduling = record {
    instance_type = "m5";
    architecture = "amd64";
    region = "r1";
    zone = "az1";
    labels = [];
    taints = [];
  };
}

abbrev join_arrival : ℕ → JoinArrival
join_arrival fence = record {
  deadline_ok = true;
  body = some (record {
    registration = registration;
    fence = pos fence;
    operation_id = "op";
    api_server_endpoint = "https://api";
    token = "t";
    ca_cert_hash = "h";
  });
}

abbrev joining : Bool → JoinSurroundings
joining succeeds = record {
  can_join = true;
  progress_write = stored;
  joins = succeeds;
  outcome_write = stored;
}

-- A first call that fails, and a second one under a newer fence.
abbrev joined_twice : Joiner
joined_twice =
    (cluster_join join_syntax (joining true) (join_arrival 3)
      (cluster_join join_syntax (joining false) (join_arrival 1) new_joiner).1).1

JoinReach-InOrder_example : InOrder join_syntax joined_twice.joined
JoinReach-InOrder_example = JoinReach-InOrder join_syntax joined_twice (
    then_joins (then_joins at_start (joins (joining false) (join_arrival 1)))
      (joins (joining true) (join_arrival 3)))

abbrev installed : Installation
installed = record {
  config_ok = true;
  identity_ok = true;
  state_readable = true;
  join_readable = true;
}

documented : Documented join_syntax
documented = record { digest_length = λ e h w. refl; endpoint_given = λ e h. ground arith }

start-restarts_example :
    (b : Agent) × (k : Joiner) × (start syntax join_syntax installed updated joined_twice
      ≡ ok (b, k))
    × Follows (mark updated.saved) (mark b.saved)
    × Behind joined_twice.file k.join
start-restarts_example =
    start-restarts syntax join_syntax installed "spiffe://crane/subd/i-1" updated joined_twice
      documented refl refl refl refl first_update
      (then_joins (then_joins at_start (joins (joining false) (join_arrival 1)))
        (joins (joining true) (join_arrival 3)))
