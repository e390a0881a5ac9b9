-- ===== src/Capacity/Catalog.antt =====
-- scheduling.go (UpdateNodeGroupScheduling) and catalog.go (UpdateClusterZone): what an operator
-- changes of a group's template and of a membership.
use crane_oss.Base.{
  String, Bool, not, ◌&&◌, ◌||◌, Option, none, some, ◌==◌, if◌then◌else◌, Result, ok, ◌>>=◌, ◌>>◌,
  refuse_if, or_fail,
}
use crane_oss.Base.Tables.{find, any, update}
use crane_oss.Api.{SchedulingTemplate}
use crane_oss.Agent.Registration.{Names, is_valid_scheduling}
use crane_oss.Capacity.Db.{
  Error, invalid, conflict, no_rows, Db, NodeGroup, Zone, ClusterZone, MembershipState, AccessState,
}

-- json.Valid, and the equality of jsonb values on a template and on launch parameters.
pub record Documents : Type 0 where
  pub names : Names
  pub is_json : String → Bool
  pub same_scheduling : SchedulingTemplate → SchedulingTemplate → Bool
  pub same_json : String → String → Bool

abbrev pub write_scheduling : String → String → SchedulingTemplate → String → Db → Db
write_scheduling id revision t launch db = record db {
  groups =
      update (λ (g : NodeGroup). g.id == id)
        (λ g. record g { template_revision = revision; scheduling = t; launch_parameters = launch })
        db.groups;
}

-- A repetition of the change that the group has is accepted, and nothing is written.
abbrev pub change_scheduling :
    Documents → NodeGroup → String → String → SchedulingTemplate → String → Db → Result Error Db
change_scheduling x g expected revision t launch db =
    if g.template_revision == revision
    then refuse_if
        (not (x.same_scheduling g.scheduling t && x.same_json g.launch_parameters launch)) conflict
      >> ok db
    else refuse_if (not (g.template_revision == expected)) conflict
      >> ok (write_scheduling g.id revision t launch db)

unfoldable pub update_node_group_scheduling :
    Documents → String → String → String → SchedulingTemplate → String → Db → Result Error Db
update_node_group_scheduling x id expected revision t launch db = do
  refuse_if (id == "" || expected == "" || revision == "" || not (x.is_json launch)) invalid
  g ← or_fail (find (λ (g : NodeGroup). g.id == id) db.groups) no_rows
  z ← or_fail (find (λ (z : Zone). z.id == g.zone_id) db.zones) no_rows
  refuse_if (not (is_valid_scheduling x.names t g.node_pool_id)) invalid
  refuse_if (not (t.region == z.kubernetes_region) || not (t.zone == z.kubernetes_zone)) invalid
  change_scheduling x g expected revision t launch db

-- normalizeMembership
abbrev pub membership_state : String → Option MembershipState
membership_state s =
    if s == "" || s == "requested"
    then some MembershipState.requested
    else if s == "initializing"
    then some MembershipState.initializing
    else if s == "ready"
    then some MembershipState.ready
    else if s == "failed"
    then some MembershipState.failed
    else none

abbrev pub access_state_of : String → Option AccessState
access_state_of s =
    if s == "" || s == "pending"
    then some AccessState.pending
    else if s == "approved"
    then some AccessState.approved
    else if s == "revoked"
    then some AccessState.revoked
    else none

abbrev pub is_membership : String → String → ClusterZone → Bool
is_membership cluster_id zone_id m = m.cluster_id == cluster_id && m.zone_id == zone_id

unfoldable pub update_cluster_zone : String → String → String → String → Db → Result Error Db
update_cluster_zone cluster_id zone_id lifecycle access db = do
  refuse_if (cluster_id == "" || zone_id == "") invalid
  s ← or_fail (membership_state lifecycle) invalid
  a ← or_fail (access_state_of access) invalid
  refuse_if (not (any (is_membership cluster_id zone_id) db.memberships)) no_rows
  ok (record db {
    memberships =
        update (is_membership cluster_id zone_id)
          (λ m. record m { lifecycle_state = s; access_state = a }) db.memberships;
  })
