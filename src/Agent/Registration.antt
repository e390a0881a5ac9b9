-- ===== src/Agent/Registration.antt =====
-- pkg/api scheduling.go and worker.go: the labels of a worker's node and what a registration needs.
use Prim.Native.String.{◌++◌}
use crane_oss.Base.{String, Bool, false, not, ◌&&◌, ◌||◌, ◌==◌, Option, none, some, List, [], ◌∷◌}
use crane_oss.Base.Tables.{any, find, filter}
use crane_oss.Api.{SchedulingTemplate, SchedulingTaint}

-- The validation package of Kubernetes, the functions HasPrefix, HasSuffix and Cut of package strings
-- (`before_slash` is none where there is no slash), and the name that WorkerNodeName hashes.
pub record Names : Type 0 where
  pub is_qualified_name : String → Bool
  pub is_label_value : String → Bool
  pub has_prefix : String → String → Bool
  pub has_suffix : String → String → Bool
  pub before_slash : String → Option String
  pub worker_node_name : String → String

pub record WorkerRegistration : Type 0 where
  pub cluster_id : String
  pub host_id : String
  pub node_group_id : String
  pub node_pool_id : String
  pub template_revision : String
  pub node_name : String
  pub provider_id : String
  pub scheduling : SchedulingTemplate

abbrev pub own_labels : SchedulingTemplate → String → List (String × String)
own_labels t pool =
    ("kubernetes.io/os", "linux")
    ∷ ("kubernetes.io/arch", t.architecture)
    ∷ ("topology.kubernetes.io/region", t.region)
    ∷ ("topology.kubernetes.io/zone", t.zone)
    ∷ ("node.kubernetes.io/instance-type", t.instance_type)
    ∷ ("platform.crane.io/node-pool", pool)
    ∷ []

abbrev pub value_of : String → List (String × String) → Option (String × String)
value_of key labels = find (λ label. label.0 == key) labels

abbrev pub prepend : List (String × String) → List (String × String) → List (String × String)
prepend [] labels = labels
prepend (label ∷ rest) labels = label ∷ prepend rest labels

abbrev pub labels_with : List (String × String) → List (String × String) → List (String × String)
labels_with extra own =
    prepend extra (filter (λ label. not (any (λ other. other.0 == label.0) extra)) own)

-- SchedulingLabels: a label of the template replaces the own one of its key.
unfoldable pub scheduling_labels : SchedulingTemplate → String → List (String × String)
scheduling_labels t pool = labels_with t.labels (own_labels t pool)

abbrev pub is_reserved : Names → String → Bool
is_reserved x key = elim (x.before_slash key) [
  | none ↦ false
  | some namespace ↦
      namespace == "kubernetes.io"
      || x.has_suffix namespace ".kubernetes.io"
      || namespace == "k8s.io"
      || x.has_suffix namespace ".k8s.io"
]

abbrev pub differs : Option (String × String) → String → Bool
differs none value = false
differs (some own) value = not (own.1 == value)

abbrev pub is_bad_label : Names → List (String × String) → String × String → Bool
is_bad_label x own (key, value) =
    not (x.is_qualified_name key)
    || not (x.is_label_value value)
    || value == ""
    || differs (value_of key own) value
    || (not (any (λ label. label.0 == key) own)
        && (is_reserved x key || x.has_prefix key "platform.crane.io/"))

abbrev pub taint_key : SchedulingTaint → String
taint_key t = t.key ++ "/" ++ t.effect

abbrev pub has_bad_taint : Names → List String → List SchedulingTaint → Bool
has_bad_taint x seen [] = false
has_bad_taint x seen (t ∷ rest) =
    t.key == "platform.crane.io/provisioning"
    || any (λ earlier. earlier == taint_key t) seen
    || not (x.is_qualified_name t.key)
    || not (x.is_label_value t.value)
    || (not (t.effect == "NoSchedule")
        && not (t.effect == "NoExecute")
        && not (t.effect == "PreferNoSchedule"))
    || has_bad_taint x (taint_key t ∷ seen) rest

-- ValidateScheduling
unfoldable pub is_valid_scheduling : Names → SchedulingTemplate → String → Bool
is_valid_scheduling x t pool =
    not (
      t.instance_type == ""
      || t.region == ""
      || t.zone == ""
      || pool == ""
      || (not (t.architecture == "amd64") && not (t.architecture == "arm64")))
    && not (any (is_bad_label x (own_labels t pool)) (scheduling_labels t pool))
    && not (has_bad_taint x [] t.taints)

-- WorkerRegistration.Validate
unfoldable pub is_valid_registration : Names → WorkerRegistration → Bool
is_valid_registration x r =
    not (
      r.cluster_id == ""
      || r.host_id == ""
      || r.node_group_id == ""
      || r.node_pool_id == ""
      || r.template_revision == ""
      || r.provider_id == "")
    && r.node_name == x.worker_node_name r.host_id
    && is_valid_scheduling x r.scheduling r.node_pool_id
