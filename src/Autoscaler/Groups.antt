-- ===== src/Autoscaler/Groups.antt =====
-- server.go and static.go: the node groups that the adapter serves, from its configuration or as the
-- store describes them.
use crane_oss.Base.{
  ℕ, String, ℤ, pos, Bool, true, false, not, ◌&&◌, ◌||◌, ◌==◌, List, [], ◌∷◌, ltb, is_negative,
  pos_part, if◌then◌else◌, Result, ok, ◌>>=◌, ◌>>◌, refuse_if,
}
use crane_oss.Base.Integers.{less}
use crane_oss.Base.Tables.{any}
use crane_oss.Api.{
  HostState, ready, converging, registering, unhealthy, draining, terminating, SchedulingTemplate,
  SchedulingTaint,
}

-- The gRPC codes that the adapter returns and tells apart.
pub data Code : Type 0 where
  invalid_argument not_found out_of_range internal unavailable unauthenticated : Code
  permission_denied aborted failed_precondition resource_exhausted cancelled : Code
  deadline_exceeded : Code

pub record AutoscalerNode : Type 0 where
  pub host_id : String
  pub provider_id : String
  pub state : HostState

-- What the store's discovery answers, read from JSON: the numbers may be negative.
pub record AutoscalerGroup : Type 0 where
  pub id : String
  pub cluster_id : String
  pub pool : String
  pub template_revision : String
  pub min_nodes : ℤ
  pub max_nodes : ℤ
  pub cpu : ℤ
  pub memory_mib : ℤ
  pub scheduling : SchedulingTemplate
  pub nodes : List AutoscalerNode

-- The states are "running", "creating" and "deleting"; a configuration may hold other texts.
pub record Node : Type 0 where
  pub host_id : String
  pub provider_id : String
  pub name : String
  pub state : String

pub record StaticNodeGroup : Type 0 where
  pub id : String
  pub cluster_id : String
  pub template_revision : String
  pub zone : String
  pub region : String
  pub pool : String
  pub min_nodes : ℤ
  pub max_nodes : ℤ
  pub instance_type : String
  pub architecture : String
  pub cpu : ℤ
  pub memory_mb : ℤ
  pub labels : List (String × String)
  pub taints : List SchedulingTaint
  pub nodes : List Node

abbrev pub max_int32 : ℕ
max_int32 = 2_147_483_647

-- math.MaxInt64/(1024*1024)
abbrev pub max_memory : ℕ
max_memory = 8_796_093_022_207

abbrev pub is_not_positive : ℤ → Bool
is_not_positive n = not (ltb 0 (pos_part n))

abbrev pub is_running : HostState → Bool
is_running ready = true
is_running converging = true
is_running registering = true
is_running unhealthy = true
is_running _ = false

abbrev pub is_leaving : HostState → Bool
is_leaving draining = true
is_leaving terminating = true
is_leaving _ = false

abbrev pub node_state : HostState → String
node_state s = if is_running s then "running" else if is_leaving s then "deleting" else "creating"

-- A label that the group gives a topology key has the topology's value.
abbrev pub overrides : List (String × String) → String × String → Bool
overrides labels (key, value) = any (λ label. label.0 == key && not (label.1 == value)) labels

abbrev pub topology_labels : String → String → String → String → List (String × String)
topology_labels region zone pool instance_type =
    ("kubernetes.io/os", "linux")
    ∷ ("topology.kubernetes.io/region", region)
    ∷ ("topology.kubernetes.io/zone", zone)
    ∷ ("platform.crane.io/node-pool", pool)
    ∷ ("node.kubernetes.io/instance-type", instance_type)
    ∷ []

abbrev pub is_architecture : String → Bool
is_architecture a = a == "amd64" || a == "arm64"

abbrev pub is_bad_group : List String → AutoscalerGroup → Bool
is_bad_group ids g =
    g.id == ""
    || any (λ id. id == g.id) ids
    || g.cluster_id == ""
    || g.pool == ""
    || g.template_revision == ""
    || is_negative g.min_nodes
    || less g.max_nodes g.min_nodes
    || less (pos max_int32) g.max_nodes
    || is_not_positive g.cpu
    || is_not_positive g.memory_mib
    || g.scheduling.zone == ""
    || g.scheduling.region == ""
    || g.scheduling.instance_type == ""
    || less (pos max_memory) g.memory_mib

-- The architecture's label is checked where the group names one.
abbrev pub group_labels : AutoscalerGroup → List (String × String)
group_labels g =
    let labels =
      topology_labels g.scheduling.region g.scheduling.zone g.pool g.scheduling.instance_type in
    if g.scheduling.architecture == ""
    then labels
    else ("kubernetes.io/arch", g.scheduling.architecture) ∷ labels

-- `known` are the provider identities met so far, in this group and in those before it.
unfoldable pub discovered_nodes :
    List String → List AutoscalerNode → Result Code (List String × List Node)
discovered_nodes known [] = ok (known, [])
discovered_nodes known (n ∷ ns) = do
  refuse_if (n.host_id == "" || n.provider_id == "" || any (λ id. id == n.provider_id) known)
      internal
  rest ← discovered_nodes (n.provider_id ∷ known) ns
  let node : Node = record {
    host_id = n.host_id;
    provider_id = n.provider_id;
    name = "";
    state = node_state n.state;
  }
  ok (rest.0, node ∷ rest.1)

abbrev pub static_group : AutoscalerGroup → List Node → StaticNodeGroup
static_group g nodes = record {
  id = g.id;
  cluster_id = g.cluster_id;
  template_revision = g.template_revision;
  zone = g.scheduling.zone;
  region = g.scheduling.region;
  pool = g.pool;
  min_nodes = g.min_nodes;
  max_nodes = g.max_nodes;
  instance_type = g.scheduling.instance_type;
  architecture = g.scheduling.architecture;
  cpu = g.cpu;
  memory_mb = g.memory_mib;
  labels = g.scheduling.labels;
  taints = g.scheduling.taints;
  nodes = nodes;
}

unfoldable pub discovered_groups_from :
    List String → List String → List AutoscalerGroup → Result Code (List StaticNodeGroup)
discovered_groups_from ids known [] = ok []
discovered_groups_from ids known (g ∷ gs) = do
  refuse_if (is_bad_group ids g) internal
  refuse_if
      (not (g.scheduling.architecture == "") && not (is_architecture g.scheduling.architecture))
      internal
  refuse_if (any (overrides g.scheduling.labels) (group_labels g)) internal
  nodes ← discovered_nodes known g.nodes
  rest ← discovered_groups_from (g.id ∷ ids) nodes.0 gs
  ok (static_group g nodes.1 ∷ rest)

abbrev pub discovered_groups : List AutoscalerGroup → Result Code (List StaticNodeGroup)
discovered_groups gs = discovered_groups_from [] [] gs
