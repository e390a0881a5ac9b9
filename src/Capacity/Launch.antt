-- ===== src/Capacity/Launch.antt =====
-- store.go: the provider's result (RecordLaunchWithAddress) and the trusted target of a launch
-- (LoadProvisioningTarget).
use Prim.Native.String.{◌++◌}
use crane_oss.Base.{
  ℕ, String, Bool, true, false, ◌&&◌, ◌||◌, none, some, List, [], ◌∷◌, ◌==◌, ltb, eqb,
  if◌then◌else◌, Result, ok, err, ◌>>=◌, ◌>>◌, refuse_if, or_fail,
}
use crane_oss.Base.Tables.{find, any, filter, count, update, sort_by}
use crane_oss.Api.{
  HostState, provisioning, booting, Parameters, template, ProvisioningTemplate, ProvisioningTarget,
  Operation, is_provision,
}
use crane_oss.Capacity.Db.{
  OperationRow, Error, invalid, conflict, inactive, invalid_provider_result, spire_unavailable, Db,
  NodeGroup, ClusterZone, Zone, Cluster, Host, Reservation, ReservationState, reserved, committed,
}
use crane_oss.Capacity.Policy.{approved_ready, member_of}
use crane_oss.Capacity.Leases.{fenced_update}
use crane_oss.Capacity.Provision.{provisions}

-- What package net answers: is the text a private IP address, and JoinHostPort of it and 44001.
pub record Net : Type 0 where
  pub is_private : String → Bool
  pub join_subd_port : String → String

-- nodeProviderIDs is variadic, with one entry at most.
abbrev pub node_provider : List String → Result Error String
node_provider [] = ok ""
node_provider (id ∷ []) = ok id
node_provider (id ∷ _ ∷ _) = err invalid

abbrev pub subd_endpoint : Net → String → Result Error String
subd_endpoint net ip =
    if ip == ""
    then ok ""
    else if net.is_private ip
    then ok ("https://" ++ net.join_subd_port ip)
    else err invalid

abbrev pub or_keep : String → String → String
or_keep new old = if new == "" then old else new

abbrev pub launched_state : HostState → HostState
launched_state provisioning = booting
launched_state booting = booting
launched_state s = s

-- The host is in a known zone, and what it records of its provider does not contradict the result.
abbrev pub accepts_launch : Operation → String → String → Db → Host → Bool
accepts_launch op provider_id node_id db h =
    h.id == op.host_id
    && any (λ (z : Zone). z.id == h.crane_zone) db.zones
    && (h.provider_id == "" || h.provider_id == provider_id)
    && (h.kubernetes_provider_id == "" || node_id == "" || h.kubernetes_provider_id == node_id)

abbrev zone_provider : Db → Host → String
zone_provider db h = elim (find (λ (z : Zone). z.id == h.crane_zone) db.zones) [
  | none ↦ h.provider
  | some z ↦ z.provider
]

abbrev pub launch_row : String → String → String → Db → Host → Host
launch_row provider_id node_id endpoint db h = record h {
  provider_id =
      if h.provider_id == "" || h.provider_id == provider_id then provider_id else h.provider_id;
  kubernetes_provider_id = or_keep node_id h.kubernetes_provider_id;
  endpoint = or_keep endpoint h.endpoint;
  subd_endpoint = or_keep endpoint h.subd_endpoint;
  provider = zone_provider db h;
  state = launched_state h.state;
}

abbrev pub commit_reservation : Reservation → Reservation
commit_reservation r = record r { state = commit r.state }
  where
    commit : ReservationState → ReservationState
    commit reserved = committed
    commit s = s

abbrev pub launches : Operation → ℕ → OperationRow → Bool
launches op now o = provisions op now o && o.host_id == op.host_id

unfoldable pub record_launch :
    Net → Operation → String → String → List String → ℕ → Db → Result Error Db
record_launch net op provider_id private_ip node_ids now db = do
  refuse_if ((if is_provision op.kind then false else true) || provider_id == "")
      invalid_provider_result
  node_id ← node_provider node_ids
  touched ← fenced_update (launches op now) (λ o. record o { updated_at = now }) db
  endpoint ← subd_endpoint net private_ip
  refuse_if
      (if eqb (count (accepts_launch op provider_id node_id db) db.hosts) 1 then false else true)
      conflict
  ok (record touched {
    hosts =
        update (accepts_launch op provider_id node_id db)
          (launch_row provider_id node_id endpoint db) db.hosts;
    reservations =
        update (λ (r : Reservation). r.host_id == op.host_id) commit_reservation db.reservations;
  })

-- The instance of the zone's oldest protected SPIRE host, or the empty text.
abbrev spire_instance : Zone → Db → String
spire_instance z db =
    elim (sort_by (λ (a b : Host). if ltb b.created_at a.created_at then false else true)
      (filter
        (λ (h : Host). h.protected && h.crane_zone == "" && h.zone == z.id && h.role == "spire")
        db.hosts)) [ [] ↦ "" | h ∷ _ ↦ h.provider_id ]

abbrev launch_template : Parameters → (String → Bool) → Result Error ProvisioningTemplate
launch_template (template t) json_valid =
    if json_valid t.launch_parameters
      && (if t.template_revision == "" || t.capacity_class == "" then false else true)
    then ok t
    else err invalid
launch_template _ json_valid = err invalid

-- Any missing or inactive part of the joined topology is "no rows", which is ErrInactive.
unfoldable pub load_provisioning_target :
    (String → Bool) → Operation → Db → Result Error (ProvisioningTemplate × ProvisioningTarget)
load_provisioning_target json_valid op db = do
  refuse_if
      ((if is_provision op.kind then false else true) || op.host_id == "" || op.node_group_id == "")
      invalid
  t ← launch_template op.parameters json_valid
  g ←
      or_fail
        (find (λ (g : NodeGroup). g.id == op.node_group_id && g.zone_id == op.zone_id) db.groups)
        inactive
  z ←
      or_fail (find (λ (z : Zone). z.id == g.zone_id && z.lifecycle_ready && z.enabled) db.zones)
        inactive
  c ←
      or_fail (find (λ (c : Cluster). c.id == g.cluster_id && c.lifecycle_ready) db.clusters)
        inactive
  m ←
      or_fail (find (λ (m : ClusterZone). member_of g m && approved_ready m) db.memberships)
        inactive
  let spire = spire_instance z db
  refuse_if (spire == "") spire_unavailable
  let s = t.scheduling
  refuse_if
      ((if s.zone == "" then false else true)
        && (if s.region == z.kubernetes_region && s.zone == z.kubernetes_zone then false else true))
      invalid
  ok (
    t,
    record {
      cluster_id = g.cluster_id;
      node_pool_id = g.node_pool_id;
      provider = z.provider;
      account_id = z.account_id;
      region = z.region;
      provider_zone_id = z.provider_zone_id;
      kubernetes_region = z.kubernetes_region;
      kubernetes_zone = z.kubernetes_zone;
      api_server_endpoint = c.api_server_endpoint;
      ca_cert_hash = c.ca_cert_hash;
      spire_instance_id = spire;
    },
  )
