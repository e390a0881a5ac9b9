-- ===== src/Capacity/Db.antt =====
-- The tables of internal/capacity/schema.sql that the capacity store reads and writes. A NULL text
-- is the empty text, as the code's COALESCE reads it. Foreign keys are not modelled.
use crane_oss.Base.{ℕ, String, Bool, List, Option}
use crane_oss.Api.{
  HostState, Resources, SchedulingTemplate, Kind, OperationState, Parameters, CapacityRequest,
  ExpectedHostState,
}

-- Errors of store.go, with those of database/sql.
pub data Error : Type 0 where
  invalid conflict replay_mismatch forbidden inactive limit template fulfilled fenced : Error
  no_rows constraint scan : Error
  invalid_lease invalid_provider_result spire_unavailable non_runnable not_configured : Error
  external : String → Error

-- LifecycleState of a zone and of a cluster: the code tests it for 'ready' alone.
pub record Zone : Type 0 where
  pub id : String
  pub provider : String
  pub account_id : String
  pub region : String
  pub provider_zone_id : String
  pub kubernetes_region : String
  pub kubernetes_zone : String
  pub enabled : Bool
  pub lifecycle_ready : Bool

pub record Cluster : Type 0 where
  pub id : String
  pub api_server_endpoint : String
  pub ca_cert_hash : String
  pub lifecycle_ready : Bool

pub data MembershipState : Type 0 where
  requested initializing ready failed : MembershipState

pub data AccessState : Type 0 where
  pending approved revoked : AccessState

pub record ClusterZone : Type 0 where
  pub cluster_id : String
  pub zone_id : String
  pub lifecycle_state : MembershipState
  pub access_state : AccessState

pub record NodePool : Type 0 where
  pub id : String
  pub enabled : Bool
  pub limits : Resources

pub record NodeGroup : Type 0 where
  pub id : String
  pub cluster_id : String
  pub zone_id : String
  pub node_pool_id : String
  pub capacity_class : String
  pub provider_zone_id : String
  pub target_nodes : ℕ
  pub target_revision : ℕ
  pub min_nodes : ℕ
  pub max_nodes : ℕ
  pub template_revision : String
  pub active : Bool
  pub vcpu : ℕ
  pub memory_mib : ℕ
  pub launch_parameters : String
  pub scheduling : SchedulingTemplate

-- A row of capacity_requests: its key, the request as it was admitted and the revision it gave.
pub record RequestRow : Type 0 where
  pub id : String
  pub request : CapacityRequest
  pub result_revision : ℕ

-- The columns lease_owner and lease_until are NULL together (a CHECK of the table).
pub record Lease : Type 0 where
  pub owner : String
  pub until : ℕ

pub record OperationRow : Type 0 where
  pub id : String
  pub kind : Kind
  pub zone_id : String
  pub group_id : String
  pub host_id : String
  pub capacity_request_id : String
  pub target_revision : ℕ
  pub state : OperationState
  pub provider_token : String
  pub parameters : Parameters
  pub lease : Option Lease
  pub fence : ℕ
  pub last_error : String
  pub created_at : ℕ
  pub updated_at : ℕ

pub record Host : Type 0 where
  pub id : String
  pub zone : String
  pub state : HostState
  pub role : String
  pub image_id : String
  pub created_at : ℕ
  pub provider : String
  pub provider_id : String
  pub endpoint : String
  pub subd_endpoint : String
  pub kubernetes_provider_id : String
  pub protected : Bool
  pub node_group_id : String
  pub node_pool_id : String
  pub crane_zone : String
  pub operation_id : String
  pub desired_state_version : String
  pub observed_state_version : String
  pub reserved_vcpu : ℕ
  pub reserved_memory_mib : ℕ
  pub excess_capacity : Bool

pub data ReservationState : Type 0 where
  reserved committed released : ReservationState

-- The column `nodes` is 1 in every row (a CHECK of the table).
pub record Reservation : Type 0 where
  pub id : String
  pub group_id : String
  pub capacity_request_id : String
  pub host_id : String
  pub vcpu : ℕ
  pub memory_mib : ℕ
  pub state : ReservationState

-- `observability_status` is 'configuration_pending', 'ready' or 'failed' (a CHECK of the table).
pub record ZoneDominator : Type 0 where
  pub zone_id : String
  pub endpoint : String
  pub identity : String
  pub observability_status : String

-- `expected_state` is `none` where the JSON column holds '{}'.
pub record ProvisioningState : Type 0 where
  pub host_id : String
  pub operation_id : String
  pub node_name : String
  pub node_uid : String
  pub provider_id : String
  pub contract_hash : String
  pub expected_state : Option ExpectedHostState
  pub release_started : Bool

pub record RemovalRow : Type 0 where
  pub operation_id : String
  pub group_id : String
  pub host_id : String
  pub node_name : String
  pub provider_id : String
  pub drain_deadline : ℕ
  pub completed : Bool

pub record Db : Type 0 where
  pub zones : List Zone
  pub clusters : List Cluster
  pub memberships : List ClusterZone
  pub pools : List NodePool
  pub groups : List NodeGroup
  pub dominators : List ZoneDominator
  pub requests : List RequestRow
  pub operations : List OperationRow
  pub hosts : List Host
  pub reservations : List Reservation
  pub provisioning : List ProvisioningState
  pub removals : List RemovalRow
