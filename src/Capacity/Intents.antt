-- ===== src/Capacity/Intents.antt =====
-- store.go, the writes of an admission: one provision intent (provisionIntent) and the cancellation
-- of intents that no worker has taken (cancelPending).
use crane_oss.Base.{
  ℕ, zero, suc, ◌+◌, ◌-◌, String, Bool, true, false, ◌&&◌, ◌||◌, none, some, List, [], ◌∷◌, ◌++◌,
  ◌==◌, ltb, eqb, length, if◌then◌else◌, Result, ok, err, ◌>>=◌,
}
use crane_oss.Base.Tables.{any, filter, update, take, sort_by}
use crane_oss.Api.{
  HostState, requested, provisioning, booting, terminated, provision, pending, cancelled, template,
  is_provision, is_pending, is_cancelled,
}
use crane_oss.Capacity.Db.{
  Error, constraint, Db, OperationRow, Host, Reservation, reserved, released,
}
use crane_oss.Capacity.Policy.{Env, Policy}

-- INSERT: refused where a primary key or a unique column clashes.
abbrev pub insert_row : {A : Type 0} → (A → Bool) → A → List A → Result Error (List A)
insert_row clash x xs = if any clash xs then err constraint else ok (xs ++ x ∷ [])

abbrev pub operation_clash : OperationRow → OperationRow → Bool
operation_clash n o = o.id == n.id || o.provider_token == n.provider_token

abbrev pub insert_operation : OperationRow → Db → Result Error Db
insert_operation n db = do
  rows ← insert_row (operation_clash n) n db.operations
  ok (record db { operations = rows })

module _ (env : Env) (p : Policy) (request_id : String) (revision : ℕ) where
  abbrev pub intent_operation : ℕ → OperationRow
  intent_operation k = record {
    id = env.uuid (k + 1);
    kind = provision;
    zone_id = p.group.zone_id;
    group_id = p.group.id;
    host_id = env.uuid k;
    capacity_request_id = request_id;
    target_revision = revision;
    state = pending;
    provider_token = env.uuid (k + 2);
    parameters = template (record {
      launch_parameters = p.group.launch_parameters;
      scheduling = p.group.scheduling;
      template_revision = p.group.template_revision;
      capacity_class = p.group.capacity_class;
    });
    lease = none;
    fence = 0;
    last_error = "";
    created_at = env.now;
    updated_at = env.now;
  }

  abbrev pub intent_host : ℕ → Host
  intent_host k = record {
    id = env.uuid k;
    zone = p.group.zone_id;
    state = requested;
    role = p.group.capacity_class;
    image_id = env.image_id p.group.launch_parameters;
    created_at = env.now;
    provider = "";
    provider_id = "";
    endpoint = "";
    subd_endpoint = "";
    kubernetes_provider_id = "";
    protected = false;
    node_group_id = p.group.id;
    node_pool_id = p.group.node_pool_id;
    crane_zone = p.group.zone_id;
    operation_id = env.uuid (k + 1);
    desired_state_version = p.group.template_revision;
    observed_state_version = "";
    reserved_vcpu = p.group.vcpu;
    reserved_memory_mib = p.group.memory_mib;
    excess_capacity = false;
  }

  abbrev pub intent_reservation : ℕ → Reservation
  intent_reservation k = record {
    id = env.uuid (k + 3);
    group_id = p.group.id;
    capacity_request_id = request_id;
    host_id = env.uuid k;
    vcpu = p.group.vcpu;
    memory_mib = p.group.memory_mib;
    state = reserved;
  }

  -- `k` numbers the UUIDs that the call has drawn so far.
  unfoldable pub provision_intent : ℕ → Db → Result Error Db
  provision_intent k db = do
    ops ← insert_row (operation_clash (intent_operation k)) (intent_operation k) db.operations
    hosts ← insert_row (λ (h : Host). h.id == env.uuid k) (intent_host k) db.hosts
    rows ←
        insert_row (λ (r : Reservation). r.id == env.uuid (k + 3) || r.host_id == env.uuid k)
          (intent_reservation k) db.reservations
    ok (record db { operations = ops; hosts = hosts; reservations = rows })

  -- The loop over `delta`: each round draws four UUIDs.
  unfoldable pub provision_intents : ℕ → ℕ → Db → Result Error Db
  provision_intents zero k db = ok db
  provision_intents (suc n) k db = provision_intent k db >>= λ db'. provision_intents n (k + 4) db'

-- h.state IN ('REQUESTED','PROVISIONING')
abbrev pub before_boot : HostState → Bool
before_boot requested = true
before_boot provisioning = true
before_boot _ = false

-- h.state IN ('REQUESTED','PROVISIONING','BOOTING')
abbrev pub before_registration : HostState → Bool
before_registration booting = true
before_registration s = before_boot s

abbrev pub is_unleased : OperationRow → Bool
is_unleased o = elim o.lease [ none ↦ true | some _ ↦ false ]

-- An intent that no controller has ever taken over.
abbrev pub cancellable : String → Db → OperationRow → Bool
cancellable group_id db o =
    o.group_id == group_id
    && is_provision o.kind
    && is_pending o.state
    && is_unleased o
    && any (λ (h : Host). h.id == o.host_id && before_boot h.state) db.hosts

-- ORDER BY created_at DESC,id
abbrev newest_first : Env → ℕ → String → ℕ → String → Bool
newest_first env t i u j = ltb u t || (eqb t u && env.text_le i j)

unfoldable pub cancelled_intents : Env → String → ℕ → Db → List OperationRow
cancelled_intents env group_id count db = take count (
    sort_by (λ (a b : OperationRow). newest_first env a.created_at a.id b.created_at b.id)
      (filter (cancellable group_id db) db.operations))

abbrev pub cancel_operation : ℕ → OperationRow → OperationRow
cancel_operation now o = record o { state = cancelled; fence = o.fence + 1; updated_at = now }

abbrev pub terminate_host : Host → Host
terminate_host h = record h { state = terminated; reserved_vcpu = 0; reserved_memory_mib = 0 }

unfoldable pub cancel_intent : ℕ → OperationRow → Db → Db
cancel_intent now i db = record db {
  operations = update (λ (o : OperationRow). o.id == i.id) (cancel_operation now) db.operations;
  hosts = update (λ (h : Host). h.id == i.host_id) terminate_host db.hosts;
  reservations =
      update (λ (r : Reservation). r.host_id == i.host_id) (λ r. record r { state = released })
        db.reservations;
}

unfoldable pub cancel_intents : ℕ → List OperationRow → Db → Db
cancel_intents now [] db = db
cancel_intents now (i ∷ is) db = cancel_intents now is (cancel_intent now i db)

-- A host of the group that may still be surrendered, and is not marked yet.
abbrev pub surplus : String → Db → Host → Bool
surplus group_id db h =
    h.node_group_id == group_id
    && before_registration h.state
    && (if h.excess_capacity then false else true)
    && any
        (λ (o : OperationRow).
          o.id == h.operation_id && (if is_cancelled o.state then false else true))
        db.operations

unfoldable pub excess_hosts : Env → String → ℕ → Db → List Host
excess_hosts env group_id count db = take count (
    sort_by (λ (a b : Host). newest_first env a.created_at a.id b.created_at b.id)
      (filter (surplus group_id db) db.hosts))

abbrev pub mark_excess : List Host → Db → Db
mark_excess chosen db = record db {
  hosts =
      update (λ (h : Host). any (λ (c : Host). c.id == h.id) chosen)
        (λ h. record h { excess_capacity = true }) db.hosts;
}

unfoldable pub cancel_pending : Env → String → ℕ → Db → Db
cancel_pending env group_id count db =
    let intents = cancelled_intents env group_id count db in
    let db' = cancel_intents env.now intents db in
    let remaining = count - length intents in
    if ltb 0 remaining then mark_excess (excess_hosts env group_id remaining db') db' else db'
