-- ===== src/Api.antt =====
-- pkg/api: the types that the control plane's packages exchange.
use crane_oss.Base.{ℕ, String, ℤ, Bool, true, false, List, Option}

-- HostState of types.go; schema.sql admits no other value in the column.
pub data HostState : Type 0 where
  requested provisioning booting registering converging ready : HostState
  draining terminating terminated failed unhealthy : HostState

pub record Resources : Type 0 where
  pub vcpu : ℕ
  pub memory_mib : ℕ
  pub nodes : ℕ

pub record SchedulingTaint : Type 0 where
  pub key : String
  pub value : String
  pub effect : String

pub record SchedulingTemplate : Type 0 where
  pub instance_type : String
  pub architecture : String
  pub region : String
  pub zone : String
  pub labels : List (String × String)
  pub taints : List SchedulingTaint

-- `launch_parameters` is raw JSON, which this code only carries.
pub record ProvisioningTemplate : Type 0 where
  pub launch_parameters : String
  pub scheduling : SchedulingTemplate
  pub template_revision : String
  pub capacity_class : String

-- KubernetesSecret of kubernetes.go; a map is the list of its entries.
pub record KubernetesSecret : Type 0 where
  pub namespace : String
  pub name : String
  pub type : String
  pub entries : List (String × String)
  pub string_data : List (String × String)
  pub rollout_deployment : String

-- KubernetesResult: the outcome of the write and the outcome of the rollout.
pub record KubernetesResult : Type 0 where
  pub secret : String
  pub rollout : String

-- ExpectedHostState of subd.go; `secret` is the pointer to a KubernetesSecret.
pub record ExpectedHostState : Type 0 where
  pub revision : ℕ
  pub image_id : String
  pub track : String
  pub version : String
  pub services : List (String × Bool)
  pub packages : List (String × String)
  pub secret : Option KubernetesSecret

pub record RemovalNode : Type 0 where
  pub host_id : String
  pub node_name : String
  pub provider_id : String

-- The int64 fields of a request come from outside and may be negative.
pub record NodeRemovalRequest : Type 0 where
  pub node_group_id : String
  pub request_id : String
  pub expected_target_revision : ℤ
  pub nodes : List RemovalNode

pub record CapacityRequest : Type 0 where
  pub node_group_id : String
  pub request_id : String
  pub cluster_id : String
  pub expected_target_revision : ℤ
  pub desired_target : ℤ
  pub template_revision : String

pub record CapacityResult : Type 0 where
  pub request_id : String
  pub node_group_id : String
  pub target_nodes : ℕ
  pub target_revision : ℕ

-- The kinds and states of an operation that schema.sql admits.
pub data Kind : Type 0 where
  provision create_cluster attach_zone remove_node : Kind

pub data OperationState : Type 0 where
  pending leased launching succeeded cancelled failed blocked : OperationState

-- The JSON column `parameters`, by the kind of operation that it was written for.
pub data Parameters : Type 0 where
  template : ProvisioningTemplate → Parameters
  removal : NodeRemovalRequest → Parameters
  bootstrap : String → Parameters

-- The trusted facts that LoadProvisioningTarget adds to an operation.
pub record ProvisioningTarget : Type 0 where
  pub cluster_id : String
  pub node_pool_id : String
  pub provider : String
  pub account_id : String
  pub region : String
  pub provider_zone_id : String
  pub kubernetes_region : String
  pub kubernetes_zone : String
  pub api_server_endpoint : String
  pub ca_cert_hash : String
  pub spire_instance_id : String

-- What a worker holds of a claimed operation: its identity and its lease, not the stored row.
pub record Operation : Type 0 where
  pub id : String
  pub kind : Kind
  pub zone_id : String
  pub node_group_id : String
  pub host_id : String
  pub capacity_request_id : String
  pub target_revision : ℕ
  pub state : OperationState
  pub provider_token : String
  pub parameters : Parameters
  pub lease_owner : String
  pub lease_until : ℕ
  pub fence : ℕ
  pub last_error : String

abbrev pub is_provision : Kind → Bool
is_provision provision = true
is_provision _ = false

abbrev pub same_kind : Kind → Kind → Bool
same_kind provision provision = true
same_kind create_cluster create_cluster = true
same_kind attach_zone attach_zone = true
same_kind remove_node remove_node = true
same_kind _ _ = false

abbrev pub is_pending : OperationState → Bool
is_pending pending = true
is_pending _ = false

abbrev pub is_launching : OperationState → Bool
is_launching launching = true
is_launching _ = false

-- state IN ('leased','launching')
abbrev pub is_held : OperationState → Bool
is_held leased = true
is_held launching = true
is_held _ = false

abbrev pub is_cancelled : OperationState → Bool
is_cancelled cancelled = true
is_cancelled _ = false
