-- ===== src/Autoscaler/Scenarios.antt =====
-- A wire that loses the first answer, and a topology from the store, to run the theorems on.
use crane_oss.Base.{pos, ◌≡◌, refl, true, Option, none, some, List, [], ◌∷◌, Result, ok, err}
use crane_oss.Api.{ready, RemovalNode}
use crane_oss.Capacity.Db.{Error, invalid}
use crane_oss.Capacity.Policy.{load_policy, join_policy, check_reservations, used}
use crane_oss.Capacity.Intents.{provision_intent, provision_intents}
use crane_oss.Capacity.Admission.{
  find_request, admissible, with_pool_limit, check_change, insert_request, apply_change, admit,
  replay, set_target,
}
use crane_oss.Capacity.Removals.{create_autoscaler_removals}
use crane_oss.Capacity.Scenarios.{at, group, start, request, groups-Unique}
use crane_oss.Autoscaler.Groups.{
  Code, internal, unavailable, AutoscalerGroup, StaticNodeGroup, Node, discovered_nodes,
  discovered_groups_from,
}
use crane_oss.Autoscaler.Server.{
  Context, Server, Target, retry_from, retry, removal_nodes, removal_request,
}
use crane_oss.Autoscaler.Retry.{retry-ends}
use crane_oss.Autoscaler.Delivery.{Wire, answer_lost, delivered, send, Once, retry-Once}
use crane_oss.Autoscaler.Removal.{delete-refused}

abbrev patient : Context
patient = record { before = λ n. none; waiting = λ n. none }

abbrev code_of : Error → Code
code_of e = internal

abbrev lossy : Wire
lossy = record { db = start; fates = (at 100, answer_lost) ∷ (at 200, delivered) ∷ [] }

abbrev or_lost : Option (Result Code (Unit {0}) × Wire) → Result Code (Unit {0}) × Wire
or_lost none = (err unavailable, lossy)
or_lost (some answer) = answer

abbrev sent : Result Code (Unit {0}) × Wire
sent = or_lost (retry patient (send code_of request) lossy)

retry-Once_example : Once request start sent.1.db
unfolding retry_from set_target load_policy join_policy find_request admit admissible
    with_pool_limit check_change check_reservations used insert_request apply_change
    provision_intents provision_intent replay
retry-Once_example = retry-Once patient code_of request lossy sent groups-Unique refl

retry-ends_example :
    (answer : Result Code (Unit {0}) × Wire) × (retry patient (send code_of request) lossy
      ≡ some answer)
    × (retry_from 7 0 patient (send code_of request) lossy ≡ some answer)
retry-ends_example = retry-ends patient (send code_of request) 4 lossy

abbrev discovered : List AutoscalerGroup
discovered =
    record {
      id = "g1";
      cluster_id = "c1";
      pool = "p1";
      template_revision = "t1";
      min_nodes = pos 0;
      max_nodes = pos 3;
      cpu = pos 4;
      memory_mib = pos 8192;
      scheduling = group.scheduling;
      nodes = record { host_id = "h1"; provider_id = "aws:///az1/i-1"; state = ready } ∷ [];
    }
    ∷ []

abbrev node : Node
node = record { host_id = "h1"; provider_id = "aws:///az1/i-1"; name = ""; state = "running" }

abbrev known : StaticNodeGroup
known = record {
  id = "g1";
  cluster_id = "c1";
  template_revision = "t1";
  zone = "az1";
  region = "r1";
  pool = "p1";
  min_nodes = pos 0;
  max_nodes = pos 3;
  instance_type = "m5";
  architecture = "amd64";
  cpu = pos 4;
  memory_mb = pos 8192;
  labels = [];
  taints = [];
  nodes = node ∷ [];
}

abbrev server : Server
server = record {
  cluster_id = "c1";
  groups = known ∷ [];
  discovers = true;
  verifier = some (λ name provider_id. ok tt);
}

abbrev removed : List RemovalNode
removed = record { host_id = "h1"; node_name = ""; provider_id = "aws:///az1/i-1" } ∷ []

abbrev read : Target
read = record { target_nodes = pos 1; target_revision = pos 1 }

-- The autoscaler names the node as Kubernetes does.
delete-refused_example :
    create_autoscaler_removals (at 300) "c1" (removal_request known "r" removed read) start
    ≡ err invalid
unfolding discovered_groups_from discovered_nodes removal_nodes
delete-refused_example =
    delete-refused (at 300) "c1" start server discovered "g1" "r"
      (("crane-node-1", "aws:///az1/i-1") ∷ []) known removed read refl refl
