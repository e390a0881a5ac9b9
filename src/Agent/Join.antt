-- ===== src/Agent/Join.antt =====
-- cluster_join.go: the agent joins its host to a cluster, by one operation with one contract.
use crane_oss.Base.{
  ℕ, String, ℤ, Bool, true, false, not, ◌&&◌, ◌||◌, ◌==◌, Option, none, some, List, ◌∷◌, ltb, eqb,
  if◌then◌else◌, Result, ok, err, ◌>>=◌, ◌>>◌, refuse_if, or_fail, pos_part,
}
use crane_oss.Agent.Registration.{Names, WorkerRegistration, is_valid_registration}
use crane_oss.Agent.State.{
  AgentOutcome, unconfigured, applying, interrupted, applied, failed, Write, is_stored, write,
  StartError, invalid_join,
}

-- The regular expressions of cluster_join.go, whether net/url reads an endpoint as a plain HTTPS one,
-- the length of a text in bytes, and the hash of JoinFingerprint.
pub record JoinSyntax : Type 0 where
  pub names : Names
  pub is_operation : String → Bool
  pub is_token : String → Bool
  pub is_ca_hash : String → Bool
  pub is_endpoint : String → Bool
  pub byte_length : String → ℕ
  pub fingerprint : String → String → WorkerRegistration → String

pub record ClusterJoinRequest : Type 0 where
  pub registration : WorkerRegistration
  pub fence : ℤ
  pub operation_id : String
  pub api_server_endpoint : String
  pub token : String
  pub ca_cert_hash : String

-- The operation's id is empty before the first request; a fence that is kept is positive.
pub record JoinState : Type 0 where
  pub operation_id : String
  pub endpoint : String
  pub ca_cert_hash : String
  pub outcome : AgentOutcome
  pub contract_hash : String
  pub registration : WorkerRegistration
  pub fence : ℕ

-- `joined` lists, newest first, the requests with which JoinCluster has been called.
pub record Joiner : Type 0 where
  pub join : Option JoinState
  pub file : Option JoinState
  pub joined : List ClusterJoinRequest

abbrev pub join_fingerprint : JoinSyntax → ClusterJoinRequest → String
join_fingerprint x r = x.fingerprint r.api_server_endpoint r.ca_cert_hash r.registration

-- validateClusterJoin
unfoldable pub is_valid_join : JoinSyntax → ClusterJoinRequest → Bool
is_valid_join x r =
    is_valid_registration x.names r.registration
    && ltb 0 (pos_part r.fence)
    && x.is_operation r.operation_id
    && x.is_token r.token
    && x.is_ca_hash r.ca_cert_hash
    && x.is_endpoint r.api_server_endpoint

abbrev pub is_configured : AgentOutcome → Bool
is_configured unconfigured = false
is_configured _ = true

-- validateJoinState
unfoldable pub is_valid_state : JoinSyntax → JoinState → Bool
is_valid_state x s =
    is_valid_registration x.names s.registration
    && eqb (x.byte_length s.contract_hash) 64
    && ltb 0 s.fence
    && x.is_operation s.operation_id
    && not (s.endpoint == "")
    && x.is_ca_hash s.ca_cert_hash
    && is_configured s.outcome

abbrev pub resumed_join : AgentOutcome → AgentOutcome
resumed_join applying = interrupted
resumed_join o = o

-- NewServer on the file of the join.
unfoldable pub restore_join : JoinSyntax → Option JoinState → Result StartError (Option JoinState)
restore_join x none = ok none
restore_join x (some s) = do
  refuse_if (not (is_valid_state x s)) invalid_join
  ok (some (record s { outcome = resumed_join s.outcome }))

pub record JoinArrival : Type 0 where
  pub deadline_ok : Bool
  pub body : Option ClusterJoinRequest

-- `can_join` is the type assertion to clusterJoinHost.
pub record JoinSurroundings : Type 0 where
  pub can_join : Bool
  pub progress_write : Write
  pub joins : Bool
  pub outcome_write : Write

unfoldable pub read_join : JoinSyntax → JoinArrival → Result ℕ ClusterJoinRequest
read_join x i = do
  refuse_if (not i.deadline_ok) 400
  r ← or_fail i.body 400
  refuse_if (not (is_valid_join x r)) 400
  ok r

abbrev pub join_conflicts : JoinSyntax → ClusterJoinRequest → JoinState → Bool
join_conflicts x r s =
    not (s.operation_id == r.operation_id)
    || not (s.contract_hash == join_fingerprint x r)
    || ltb (pos_part r.fence) s.fence

abbrev pub new_join : JoinSyntax → ClusterJoinRequest → JoinState
new_join x r = record {
  operation_id = r.operation_id;
  endpoint = r.api_server_endpoint;
  ca_cert_hash = r.ca_cert_hash;
  outcome = applying;
  contract_hash = join_fingerprint x r;
  registration = r.registration;
  fence = pos_part r.fence;
}

-- The state that a request goes on with, where it does not conflict.
abbrev pub bind : JoinSyntax → ClusterJoinRequest → Option JoinState → Result ℕ JoinState
bind x r none = ok (new_join x r)
bind x r (some s) = if join_conflicts x r s then err 409 else ok s

abbrev pub outcome_state : Bool → JoinState → JoinState
outcome_state done s = record s { outcome = if done then applied else failed }

-- After JoinCluster: a failure is answered with 502 whether or not it can be persisted.
abbrev pub finish_join : JoinSurroundings → ClusterJoinRequest → JoinState → Joiner → ℕ × Joiner
finish_join h r s a =
    let next = outcome_state h.joins s in
    let b = record a {
      join = some (
          if not h.joins || is_stored h.outcome_write
          then next
          else record next { outcome = interrupted });
      file = write h.outcome_write next a.file;
      joined = r ∷ a.joined;
    } in
    (if h.joins then if is_stored h.outcome_write then 200 else 503 else 502, b)

abbrev pub proceed : JoinSurroundings → ClusterJoinRequest → JoinState → Joiner → ℕ × Joiner
proceed h r s a =
    if not h.can_join
    then (503, record a { join = some s })
    else let next = record s { fence = pos_part r.fence; outcome = applying } in
      let b = record a { join = some next; file = write h.progress_write next a.file } in
      if is_stored h.progress_write then finish_join h r next b else (503, b)

abbrev pub respond_join :
    JoinSurroundings → ClusterJoinRequest → Joiner → Result ℕ JoinState → ℕ × Joiner
respond_join h r a (err code) = (code, a)
respond_join h r a (ok s) = proceed h r s a

abbrev pub join_locked :
    JoinSyntax → JoinSurroundings → Joiner → Result ℕ ClusterJoinRequest → ℕ × Joiner
join_locked x h a (err code) = (code, a)
join_locked x h a (ok r) = respond_join h r a (bind x r a.join)

-- The handler of PUT /v1/cluster-join: its HTTP status and what it leaves.
unfoldable pub cluster_join : JoinSyntax → JoinSurroundings → JoinArrival → Joiner → ℕ × Joiner
cluster_join x h i a = join_locked x h a (read_join x i)
