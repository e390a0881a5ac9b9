-- ===== src/Capacity/Binding.antt =====
-- provision_handoff.go: a worker's node is bound to its operation (BindProvisionNode) and the state
-- that is expected of it is pinned (PinProvisionExpectedState).
use Prim.Native.String.{◌++◌}
use crane_oss.Base.{
  ℕ, String, Bool, true, false, ◌&&◌, ◌||◌, none, some, ◌==◌, ltb, eqb, if◌then◌else◌, Result, ok,
  err, ◌>>=◌, ◌>>◌, refuse_if, or_fail,
}
use crane_oss.Base.Tables.{find, any, count, update}
use crane_oss.Api.{Operation, ExpectedHostState, is_provision, is_launching}
use crane_oss.Capacity.Db.{
  Error, invalid, no_rows, fenced, Db, OperationRow, Host, ProvisioningState,
}
use crane_oss.Capacity.Intents.{insert_row}
use crane_oss.Capacity.Leases.{holds}
use crane_oss.Capacity.Provision.{is_registering}
use crane_oss.Capacity.Handoff.{group_approved}

-- What the standard library supplies: the hex digest of api.WorkerNodeName, the length of a text in
-- bytes, and whether the JSON round trip of a state is accepted.
pub record Codec : Type 0 where
  pub digest : String → String
  pub byte_length : String → ℕ

abbrev pub worker_node_name : Codec → String → String
worker_node_name c host_id = "crane-" ++ c.digest host_id

pub record ProvisionBinding : Type 0 where
  pub node_name : String
  pub node_uid : String
  pub provider_id : String
  pub contract_hash : String

abbrev pub bindable : Operation → ℕ → Db → OperationRow → Bool
bindable op now db o =
    holds op now o
    && o.host_id == op.host_id
    && is_provision o.kind
    && is_launching o.state
    && group_approved db o
    && any (λ (h : Host). h.id == o.host_id && is_registering h.state) db.hosts

abbrev pub binding_row : Operation → ProvisionBinding → ProvisioningState
binding_row op b = record {
  host_id = op.host_id;
  operation_id = op.id;
  node_name = b.node_name;
  node_uid = b.node_uid;
  provider_id = b.provider_id;
  contract_hash = b.contract_hash;
  expected_state = none;
  release_started = false;
}

abbrev pub same_binding : ProvisioningState → ProvisioningState → Bool
same_binding a b =
    a.operation_id == b.operation_id
    && a.node_name == b.node_name
    && a.node_uid == b.node_uid
    && a.provider_id == b.provider_id
    && a.contract_hash == b.contract_hash

-- INSERT … ON CONFLICT(host_id) DO UPDATE … WHERE the old evidence is the new: one row is affected
-- by a first binding and by its exact repetition, none by other evidence.
unfoldable pub bind_provision_node : Codec → Operation → ProvisionBinding → ℕ → Db → Result Error Db
bind_provision_node c op b now db = do
  refuse_if
      ((if b.node_name == worker_node_name c op.host_id then false else true)
        || b.node_uid == ""
        || b.provider_id == ""
        || (if eqb (c.byte_length b.contract_hash) 64 then false else true))
      invalid
  refuse_if (if eqb (count (bindable op now db) db.operations) 1 then false else true) fenced
  let new = binding_row op b
  elim (find (λ (p : ProvisioningState). p.host_id == op.host_id) db.provisioning) [
    | some old ↦ if same_binding old new then ok db else err fenced
    | none ↦
        insert_row (λ (p : ProvisioningState). p.operation_id == op.id || p.node_uid == b.node_uid)
          new db.provisioning
        >>= λ rows. ok (record db { provisioning = rows })
  ]

-- ProvisionBinding: the state bound for the operation's host.
unfoldable pub provision_binding : Operation → Db → Result Error ProvisioningState
provision_binding op db =
    or_fail
      (find (λ (p : ProvisioningState). p.host_id == op.host_id && p.operation_id == op.id)
        db.provisioning)
      no_rows

abbrev has_secret : ExpectedHostState → Bool
has_secret s = elim s.secret [ none ↦ false | some _ ↦ true ]

abbrev pub pinnable : Codec → ExpectedHostState → Bool
pinnable c s =
    eqb s.revision 1
    && (if s.version == "" || ltb 128 (c.byte_length s.version) || has_secret s
        then false
        else true)

-- The first state that is pinned stays.
abbrev pub pin : ExpectedHostState → ProvisioningState → ProvisioningState
pin s p = elim p.expected_state [ none ↦ record p { expected_state = some s } | some _ ↦ p ]

abbrev pub pinned_or : ExpectedHostState → ProvisioningState → ExpectedHostState
pinned_or s p = elim p.expected_state [ none ↦ s | some t ↦ t ]

-- The row lock is taken on an operation in `launching` whose host is registering.
abbrev pub pins : Operation → ℕ → Db → OperationRow → Bool
pins op now db o =
    holds op now o
    && o.host_id == op.host_id
    && is_launching o.state
    && any (λ (h : Host). h.id == o.host_id && is_registering h.state) db.hosts

-- PinProvisionExpectedState: it returns what is pinned now, which may be an earlier state.
unfoldable pub pin_provision_expected_state :
    Codec → Operation → ExpectedHostState → ℕ → Db → Result Error (ExpectedHostState × Db)
pin_provision_expected_state c op s now db = do
  refuse_if (if pinnable c s then false else true) invalid
  refuse_if (if any (pins op now db) db.operations then false else true) fenced
  let bound = λ (p : ProvisioningState). p.host_id == op.host_id && p.operation_id == op.id
  p ← or_fail (find bound db.provisioning) no_rows
  let pinned = pinned_or s p
  refuse_if (if eqb pinned.revision 1 then (pinned.version == "" || has_secret pinned) else true)
      invalid
  ok (
    pinned,
    record db {
      provisioning = update bound (pin s) db.provisioning;
      hosts =
          update (λ (h : Host). h.id == op.host_id)
            (λ h. record h { desired_state_version = pinned.version }) db.hosts;
    },
  )
