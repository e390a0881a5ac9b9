-- ===== src/HostOperations/Store.antt =====
-- store.go and the table host_state_requests: which host a request may reach, and the requests that
-- are known.
use crane_oss.Base.{
  ℕ, String, Bool, true, false, not, ◌&&◌, ◌||◌, ◌==◌, Option, none, some, List, [], ◌∷◌, ltb,
  if◌then◌else◌, Result, ok, ◌>>=◌, ◌>>◌, refuse_if, or_fail,
}
use crane_oss.Base.Tables.{any, find}
use crane_oss.Api.{HostState, draining, terminating, terminated, failed, KubernetesResult}
use crane_oss.Capacity.Db.{
  Db, Host, NodeGroup, ClusterZone, ZoneDominator, MembershipState, AccessState, approved,
}

pub data RequestOutcome : Type 0 where
  pending_request applied_request failed_request unknown_request : RequestOutcome

pub record SecretResult : Type 0 where
  pub host_id : String
  pub zone_id : String
  pub request_id : String
  pub revision : ℕ
  pub outcome : RequestOutcome
  pub kubernetes : Option KubernetesResult

-- A row of host_state_requests.
pub record StateRequest : Type 0 where
  pub host_id : String
  pub request_id : String
  pub fingerprint : String
  pub revision : ℕ
  pub outcome : RequestOutcome
  pub result : Option SecretResult

pub record Store : Type 0 where
  pub db : Db
  pub state_requests : List StateRequest

pub record HostTarget : Type 0 where
  pub host_id : String
  pub zone_id : String
  pub cluster_id : String
  pub provider_id : String
  pub endpoint : String
  pub dominator_endpoint : String
  pub dominator_identity : String

abbrev pub is_out_of_service : HostState → Bool
is_out_of_service draining = true
is_out_of_service terminating = true
is_out_of_service terminated = true
is_out_of_service failed = true
is_out_of_service _ = false

abbrev pub is_member : ClusterZone → Bool
is_member m = is_ready m.lifecycle_state && is_approved m.access_state
  where
    is_ready : MembershipState → Bool
    is_ready MembershipState.ready = true
    is_ready _ = false

    is_approved : AccessState → Bool
    is_approved approved = true
    is_approved _ = false

-- COALESCE(h.crane_zone,h.zone,'')
abbrev pub zone_of : Host → String
zone_of h = if h.crane_zone == "" then h.zone else h.crane_zone

-- The group that the LEFT JOIN gives the host.
abbrev pub group_of : Db → Host → Option NodeGroup
group_of db h =
    find (λ (g : NodeGroup). g.id == h.node_group_id && g.zone_id == h.crane_zone) db.groups

abbrev pub cluster_of : Option NodeGroup → String
cluster_of none = ""
cluster_of (some g) = g.cluster_id

-- Whether the host's group is in a cluster that its zone may not act for.
abbrev pub is_unauthorized : Db → Option NodeGroup → Bool
is_unauthorized db none = false
is_unauthorized db (some g) =
    not (g.cluster_id == "")
    && not (
        any
          (λ (m : ClusterZone).
            m.cluster_id == g.cluster_id && m.zone_id == g.zone_id && is_member m)
          db.memberships)

-- loadTarget, with the HTTP status of its errors.
unfoldable pub load_target : Db → String → Result ℕ HostTarget
load_target db host = do
  h ← or_fail (find (λ (h : Host). h.id == host) db.hosts) 404
  let group = group_of db h
  refuse_if (is_out_of_service h.state || h.provider_id == "" || h.subd_endpoint == "") 409
  refuse_if (is_unauthorized db group) 403
  d ← or_fail (find (λ (d : ZoneDominator). d.zone_id == zone_of h) db.dominators) 503
  ok (record {
    host_id = host;
    zone_id = zone_of h;
    cluster_id = cluster_of group;
    provider_id = h.provider_id;
    endpoint = h.subd_endpoint;
    dominator_endpoint = d.endpoint;
    dominator_identity = d.identity;
  })

abbrev pub is_key : String → String → StateRequest → Bool
is_key host id r = r.host_id == host && r.request_id == id

unfoldable pub find_state_request : String → String → Store → Option StateRequest
find_state_request host id st = find (is_key host id) st.state_requests

-- COALESCE(max(revision),0) of the host's rows
unfoldable pub max_revision : String → List StateRequest → ℕ
max_revision host [] = 0
max_revision host (r ∷ rs) =
    let rest = max_revision host rs in
    if r.host_id == host && ltb rest r.revision then r.revision else rest
