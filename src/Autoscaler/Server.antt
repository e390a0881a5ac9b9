-- ===== src/Autoscaler/Server.antt =====
-- server.go: the protocol's handlers. Each call of the store or of Kubernetes goes through the client,
-- which has a state of its own.
use crane_oss.Base.{
  ℕ, zero, suc, String, ℤ, pos, Bool, true, false, not, ◌&&◌, ◌||◌, ◌==◌, Option, none, some, List,
  [], ◌∷◌, eqb, length, is_negative, if◌then◌else◌, Result, ok, err, ◌>>=◌, ◌>>◌, refuse_if,
  or_fail,
}
use crane_oss.Base.Integers.{less, ◌+ℤ◌}
use crane_oss.Base.Tables.{any, find}
use crane_oss.Api.{CapacityRequest, NodeRemovalRequest, RemovalNode}
use crane_oss.Autoscaler.Groups.{
  Code, invalid_argument, not_found, out_of_range, internal, unavailable, AutoscalerGroup, Node,
  StaticNodeGroup, max_int32, discovered_groups,
}

pub record Target : Type 0 where
  pub target_nodes : ℤ
  pub target_revision : ℤ

pub record CraneClient (S : Type 0) : Type 1 where
  pub target : String → S → Result Code Target × S
  pub set_target : CapacityRequest → S → Result Code (Unit {0}) × S
  pub remove_nodes : NodeRemovalRequest → S → Result Code (Unit {0}) × S
  pub discover : S → Result Code (List AutoscalerGroup) × S

-- `discovers` says whether the topology comes from the store, and `verifier` is VerifyNode, if set.
pub record Server : Type 0 where
  pub cluster_id : String
  pub groups : List StaticNodeGroup
  pub discovers : Bool
  pub verifier : Option (String → String → Result Code (Unit {0}))

-- The error of the context, if it has one: before a call, and while the loop waits after it.
pub record Context : Type 0 where
  pub before : ℕ → Option Code
  pub waiting : ℕ → Option Code

abbrev pub is_unavailable {ℓ} : {A : Type ℓ} → Result Code A → Bool
is_unavailable (err unavailable) = true
is_unavailable _ = false

module _ {S : Type 0} where
  -- A context with an error ends the loop before the call.
  abbrev pub unless_done :
      Option Code → S → Option (Result Code (Unit {0}) × S) → Option (Result Code (Unit {0}) × S)
  unless_done none s go = go
  unless_done (some code) s go = some (err code, s)

  -- After the call: the loop ends, the context ends it, or it goes on.
  abbrev pub after_call :
      Bool
      → Option Code
      → Result Code (Unit {0}) × S
      → Option (Result Code (Unit {0}) × S)
      → Option (Result Code (Unit {0}) × S)
  after_call true ctx_error answer rest = some answer
  after_call false (some code) answer rest = some (err code, answer.1)
  after_call false none answer rest = rest

  -- The loop of retry, which counts its attempts and stops after the third; none where it goes on
  -- beyond the fuel.
  unfoldable pub retry_from :
      ℕ → ℕ → Context → (S → Result Code (Unit {0}) × S) → S → Option (Result Code (Unit {0}) × S)
  retry_from zero attempt ctx call s = none
  retry_from (suc fuel) attempt ctx call s = unless_done (ctx.before attempt) s (
      after_call (not (is_unavailable (call s).0) || eqb attempt 2) (ctx.waiting attempt) (call s)
        (retry_from fuel (suc attempt) ctx call (call s).1))

  abbrev pub retry :
      Context → (S → Result Code (Unit {0}) × S) → S → Option (Result Code (Unit {0}) × S)
  retry ctx call s = retry_from 3 0 ctx call s

-- What a handler leaves: its result, the server and the client's state.
pub record Handled (S A : Type 0) : Type 0 where
  pub result : Result Code A
  pub server : Server
  pub state : S

abbrev pub refreshed : Server → Result Code (List AutoscalerGroup) → Result Code Server
refreshed srv answer = do
  d ← answer
  groups ← discovered_groups d
  refuse_if (any (λ (g : StaticNodeGroup). not (g.cluster_id == srv.cluster_id)) groups) internal
  ok (record srv { groups = groups })

abbrev pub or_known : Server → Result Code Server → Server
or_known srv (ok new) = new
or_known srv (err code) = srv

abbrev pub find_group : Server → String → Result Code StaticNodeGroup
find_group srv id = or_fail (find (λ (g : StaticNodeGroup). g.id == id) srv.groups) not_found

abbrev pub is_bad_target : Target → Bool
is_bad_target t =
    is_negative t.target_nodes
    || less (pos max_int32) t.target_nodes
    || is_negative t.target_revision

-- What changeTarget asks for, once it has read the target.
unfoldable pub change_request :
    Server → StaticNodeGroup → String → ℤ → String → Target → Result Code CapacityRequest
change_request srv g id delta uuid t = do
  refuse_if (is_bad_target t) internal
  let desired = t.target_nodes +ℤ delta
  refuse_if (less desired g.min_nodes || less g.max_nodes desired) out_of_range
  ok (record {
    node_group_id = id;
    request_id = uuid;
    cluster_id = srv.cluster_id;
    expected_target_revision = t.target_revision;
    desired_target = desired;
    template_revision = g.template_revision;
  })

abbrev pub matches : Server → String → String → Node → Bool
matches srv name provider_id n =
    n.provider_id == provider_id && elim srv.verifier [ none ↦ n.name == name | some _ ↦ true ]

abbrev pub verify : Server → String → String → Result Code (Unit {0})
verify srv name provider_id = elim srv.verifier [ none ↦ ok tt | some v ↦ v name provider_id ]

-- The rounds of NodeGroupDeleteNodes over the nodes that the request names: name and identity.
unfoldable pub removal_nodes :
    Server → StaticNodeGroup → List String → List (String × String) → Result Code (List RemovalNode)
removal_nodes srv g seen [] = ok []
removal_nodes srv g seen ((name, provider_id) ∷ rest) = do
  known ← or_fail (find (matches srv name provider_id) g.nodes) invalid_argument
  refuse_if (any (λ host. host == known.host_id) seen) invalid_argument
  verify srv name provider_id
  nodes ← removal_nodes srv g (known.host_id ∷ seen) rest
  ok (
      record { host_id = known.host_id; node_name = known.name; provider_id = known.provider_id }
      ∷ nodes)

abbrev pub removal_request :
    StaticNodeGroup → String → List RemovalNode → Target → NodeRemovalRequest
removal_request g uuid nodes t = record {
  node_group_id = g.id;
  request_id = uuid;
  expected_target_revision = t.target_revision;
  nodes = nodes;
}

abbrev pub named_nodes :
    Server → String → List (String × String) → Result Code (StaticNodeGroup × List RemovalNode)
named_nodes srv id nodes = do
  g ← find_group srv id
  refuse_if (eqb (length nodes) 0) invalid_argument
  removals ← removal_nodes srv g [] nodes
  ok (g, removals)

module _ {S : Type 0} (c : CraneClient S) where
  abbrev pub refresh : Server → S → Result Code Server × S
  refresh srv s =
      if not srv.discovers
      then (ok srv, s)
      else let answer = c.discover s in (refreshed srv answer.0, answer.1)

  -- NodeGroupTargetSize: a failing refresh is forgotten.
  unfoldable pub target_size : Server → String → S → Handled S ℤ
  target_size srv id s =
      let fresh = refresh srv s in
      let known = or_known srv fresh.0 in answer known (find_group known id) fresh.1
    where
      read : Target → Result Code ℤ
      read t =
          if is_negative t.target_nodes || less (pos max_int32) t.target_nodes
          then err internal
          else ok t.target_nodes

      answer : Server → Result Code StaticNodeGroup → S → Handled S ℤ
      answer srv (err code) s = record { result = err code; server = srv; state = s }
      answer srv (ok g) s =
          let t = c.target g.id s in record { result = t.0 >>= read; server = srv; state = t.1 }

  abbrev pub send_change :
      Context → Result Code CapacityRequest → S → Option (Result Code (Unit {0}) × S)
  send_change ctx (err code) s = some (err code, s)
  send_change ctx (ok req) s = retry ctx (c.set_target req) s

  abbrev pub change_group :
      Context
      → Server
      → String
      → ℤ
      → String
      → Result Code StaticNodeGroup
      → S
      → Option (Result Code (Unit {0}) × S)
  change_group ctx srv id delta uuid (err code) s = some (err code, s)
  change_group ctx srv id delta uuid (ok g) s =
      let t = c.target id s in send_change ctx (t.0 >>= change_request srv g id delta uuid) t.1

  abbrev pub change_on :
      Context → String → ℤ → String → Result Code Server → S → Option (Result Code (Unit {0}) × S)
  change_on ctx id delta uuid (err code) s = some (err code, s)
  change_on ctx id delta uuid (ok srv) s = change_group ctx srv id delta uuid (find_group srv id) s

  -- changeTarget, with the server that it leaves.
  unfoldable pub change_target :
      Context → Server → String → ℤ → String → S → Option (Result Code (Unit {0}) × S) × Server
  change_target ctx srv id delta uuid s =
      let fresh = refresh srv s in
      (change_on ctx id delta uuid fresh.0 fresh.1, or_known srv fresh.0)

  unfoldable pub increase_size :
      Context → Server → String → ℤ → String → S → Option (Result Code (Unit {0}) × S) × Server
  increase_size ctx srv id delta uuid s =
      if less (pos 0) delta
      then change_target ctx srv id delta uuid s
      else (some (err invalid_argument, s), srv)

  unfoldable pub decrease_target_size :
      Context → Server → String → ℤ → String → S → Option (Result Code (Unit {0}) × S) × Server
  decrease_target_size ctx srv id delta uuid s =
      if less delta (pos 0)
      then change_target ctx srv id delta uuid s
      else (some (err invalid_argument, s), srv)

  abbrev pub send_removal :
      Context → Result Code NodeRemovalRequest → S → Option (Result Code (Unit {0}) × S)
  send_removal ctx (err code) s = some (err code, s)
  send_removal ctx (ok req) s = retry ctx (c.remove_nodes req) s

  abbrev pub delete_named :
      Context
      → String
      → Result Code (StaticNodeGroup × List RemovalNode)
      → S
      → Option (Result Code (Unit {0}) × S)
  delete_named ctx uuid (err code) s = some (err code, s)
  delete_named ctx uuid (ok (g, nodes)) s =
      let t = c.target g.id s in
      send_removal ctx (t.0 >>= λ r. ok (removal_request g uuid nodes r)) t.1

  -- NodeGroupDeleteNodes works on the topology that it knows and refreshes nothing.
  unfoldable pub delete_nodes :
      Context
      → Server
      → String
      → String
      → List (String × String)
      → S
      → Option (Result Code (Unit {0}) × S)
  delete_nodes ctx srv id uuid nodes s = delete_named ctx uuid (named_nodes srv id nodes) s
