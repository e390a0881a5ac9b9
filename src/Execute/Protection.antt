-- ===== src/Execute/Protection.antt =====
-- The legacy action queue against the hosts that are protected, or managed by capacity operations.
pub mod Actions
pub mod Order
use crane_oss.Base.{
  ℕ, ◌+◌, String, ◌≡◌, refl, ap, sym, subst, ◌∙◌, Bool, true, false, not, ◌||◌, Option, none, some,
  List, [], ◌∷◌, ◌++◌, ◌==◌, eq_iff, eq_refl, arith, if◌then◌else◌, Result, ok, err, ◌>>=◌, ◌>>◌,
  refuse_if, refuse_if-eq-ok, or_fail, or_fail-eq-ok, >>=-eq-ok, Bool-cases, Option-cases, inl, inr,
}
use crane_oss.Base.Tables.{find, any, update}
use crane_oss.Base.Rows.{
  any-All, All, All-snoc, All-update, All-map, Grows, Grows-refl, Grows-trans, Grows-update_All,
  Grows-append, Unique, Unique-any, Unique-snoc, Unique-update, find-any_and,
}
use crane_oss.Api.{HostState, draining, ready, unhealthy}
use crane_oss.Hosts.Catalog.{
  Hosts, CatalogHost, CatalogError, DbConnectionInfo, with_id, update_host, ensure_legacy_lifecycle,
  get_by_id, insert_host, create_host, transition_state, update_host_provider_id, update_state,
  update_db_connection_info,
}
use crane_oss.Hosts.Lifecycle.{can_become}
use crane_oss.Execute.Queue.{
  ActionType, drain_host, replace_host, create_lb, create_db, create_spire_instance, other_action,
}
use crane_oss.Execute.Executor.{
  ProviderCall, ExecuteError, Provider, World, Execution, catalog, finished, stop, write, call,
  guarded, read_host,
}

abbrev pub is_guarded : CatalogHost → Bool
is_guarded h = h.protected || h.managed

-- The row keeps its identity, and a protected or managed one keeps everything.
pub record KeepsGuarded (x y : CatalogHost) : Type 0 where
  pub id : y.id ≡ x.id
  pub kept : is_guarded x ≡ true → y ≡ x

KeepsGuarded-refl : (x : CatalogHost) → KeepsGuarded x x
KeepsGuarded-refl x = record { id = refl; kept = λ h. refl }

KeepsGuarded-trans : (x y z : CatalogHost) → KeepsGuarded x y → KeepsGuarded y z → KeepsGuarded x z
KeepsGuarded-trans x y z a b = record {
  id = b.id ∙ a.id;
  kept = λ h. b.kept (ap is_guarded (a.kept h) ∙ h) ∙ a.kept h;
}

abbrev id_of : CatalogHost → String
id_of h = h.id

abbrev Unguarded : String → CatalogHost → Type 0
Unguarded id h = h.id ≡ id → is_guarded h ≡ false

-- Since `base`, the guarded rows are kept, and ids are unique.
record Kept (base hosts : Hosts) : Type 0 where
  grows : Grows KeepsGuarded base hosts
  unique : Unique id_of hosts

-- Besides, no row of this id is guarded.
record Free (id : String) (base hosts : Hosts) : Type 0 where
  kept : Kept base hosts
  free : All (Unguarded id) hosts

ensure-Unguarded :
    (id : String) (hosts : Hosts)
    → Unique id_of hosts
    → ensure_legacy_lifecycle id hosts ≡ ok tt
    → All (Unguarded id) hosts
unfolding ensure_legacy_lifecycle
ensure-Unguarded id hosts u h =
    let (x, found, h1) = >>=-eq-ok (or_fail (find (with_id id) hosts) CatalogError.no_rows) _ h in
    let (_, p, h2) = >>=-eq-ok (refuse_if x.protected CatalogError.protected_host) _ h1 in
    All-map (λ (y : CatalogHost). y.id ≡ id → not (is_guarded y) ≡ true) (Unguarded id)
      (λ y f e. ground (arith, f e)) hosts
      (Unique-any id_of id (λ y. not (is_guarded y)) hosts u
        (find-any_and (with_id id) (λ y. not (is_guarded y)) hosts x
          (or_fail-eq-ok _ CatalogError.no_rows x found)
          (ground (
            arith,
            refuse_if-eq-ok x.protected CatalogError.protected_host p,
            refuse_if-eq-ok x.managed CatalogError.managed_capacity h2,
          ))))

-- An update of the rows of an unguarded id that keeps ids and guards.
update-Free :
    (id : String) (f : CatalogHost → CatalogHost) (base hosts : Hosts)
    → ((x : CatalogHost) → (f x).id ≡ x.id)
    → ((x : CatalogHost) → is_guarded (f x) ≡ is_guarded x)
    → Free id base hosts
    → Free id base (update_host id f hosts)
update-Free id f base hosts same_id same_guard s = record {
  kept = record {
    grows = Grows-trans KeepsGuarded KeepsGuarded-trans base hosts _ s.kept.grows (
        Grows-update_All KeepsGuarded (with_id id) f KeepsGuarded-refl hosts (
          All-map (Unguarded id) (λ x. with_id id x ≡ true → KeepsGuarded x (f x))
            (λ x free e. record {
              id = same_id x;
              kept = λ h. absurd (clash (free ((eq_iff x.id id).0 e)) h);
            })
            hosts s.free));
    unique = Unique-update id_of (with_id id) f same_id hosts s.kept.unique;
  };
  free =
      All-update (Unguarded id) (with_id id) f
        (λ x e g same. same_guard x ∙ g (sym (same_id x) ∙ same)) hosts s.free;
}
  where
    clash : {b : Bool} → b ≡ false → b ≡ true → ⊥
    clash e h = cc

-- Started where `I` holds, the execution keeps the guarded rows of `base`.
Safe : Hosts → (Hosts → Type 0) → Execution → Type 0
Safe base I k = (w : World) → I w.hosts → Grows KeepsGuarded base (k w).1.hosts

module _ (base : Hosts) (I : Hosts → Type 0)
    (holds : (hosts : Hosts) → I hosts → Grows KeepsGuarded base hosts) where
  write-Safe :
      (J : Hosts → Type 0) (f : Hosts → Result CatalogError Hosts) (k : Execution)
      → ((hosts hosts' : Hosts) → I hosts → f hosts ≡ ok hosts' → J hosts')
      → Safe base J k
      → Safe base I (write f k)
  unfolding Safe
  write-Safe J f k writes safe w i = answered (f w.hosts) refl
    where
      answered :
          (r : Result CatalogError Hosts)
          → f w.hosts ≡ r
          → Grows KeepsGuarded base (write f k w).1.hosts
      answered (ok hosts) e =
          rw (e, write) (safe (record w { hosts = hosts }) (writes w.hosts hosts i e))
      answered (err x) e = rw (e, write) (holds w.hosts i)

  call-Safe :
      {A : Type 0} (c : ProviderCall) (answer : Result String A) (k : A → Execution)
      → ((a : A) → Safe base I (k a))
      → Safe base I (call c answer k)
  unfolding Safe
  call-Safe c (ok a) k safe w i = safe a (record w { calls = w.calls ++ c ∷ [] }) i
  call-Safe c (err x) k safe w i = holds w.hosts i

  guarded-Safe :
      (host_id : String) (k : Execution) → Safe base I k → Safe base I (guarded host_id k)
  unfolding Safe
  guarded-Safe host_id k safe w i = checked (ensure_legacy_lifecycle host_id w.hosts) refl
    where
      checked :
          (r : Result CatalogError (Unit {0}))
          → ensure_legacy_lifecycle host_id w.hosts ≡ r
          → Grows KeepsGuarded base (guarded host_id k w).1.hosts
      checked (ok u) e = rw (e, guarded) (safe w i)
      checked (err x) e = rw (e, guarded) (holds w.hosts i)

  read_host-Safe :
      (host_id : String) (k : CatalogHost → Execution)
      → ((h : CatalogHost) → Safe base I (k h))
      → Safe base I (read_host host_id k)
  unfolding Safe
  read_host-Safe host_id k safe w i = found (get_by_id host_id w.hosts) refl
    where
      found :
          (r : Result CatalogError CatalogHost)
          → get_by_id host_id w.hosts ≡ r
          → Grows KeepsGuarded base (read_host host_id k w).1.hosts
      found (ok h) e = rw (e, read_host) (safe h w i)
      found (err x) e = rw (e, read_host) (holds w.hosts i)

  finished-Safe : Safe base I finished
  unfolding Safe
  finished-Safe w i = holds w.hosts i

written : {a b : Hosts} → ◌≡◌ {A = Result CatalogError Hosts} (ok a) (ok b) → a ≡ b
written e = cc

-- A new host's id was in no row, and the new row is unguarded.
insert-Free :
    (base : Hosts) (n : CatalogHost) (hosts hosts' : Hosts)
    → is_guarded n ≡ false
    → Kept base hosts
    → insert_host n hosts ≡ ok hosts'
    → Free n.id base hosts'
unfolding insert_host
insert-Free base n hosts hosts' bare k h = elim (Bool-cases (any (with_id n.id) hosts)) [
  | inl taken ↦
      let no : (◌≡◌ {A = Result CatalogError Hosts} (err CatalogError.duplicate) (ok hosts')) =
        (rw taken at h) in
      cc
  | inr new ↦ subst (Free n.id base) (written (rw new at h)) (record {
    kept = record {
      grows =
          Grows-trans KeepsGuarded KeepsGuarded-trans base hosts _ k.grows
            (Grows-append KeepsGuarded KeepsGuarded-refl hosts (n ∷ []));
      unique = Unique-snoc id_of hosts n k.unique new;
    };
    free =
        All-snoc (Unguarded n.id) hosts n
          (All-map (λ x. with_id n.id x ≡ false) (Unguarded n.id)
            (λ x miss same. ground (arith, eq_iff x.id n.id)) hosts
            (any-All (with_id n.id) hosts new))
          (λ same. bare);
  })
]

transition-Kept :
    (base : Hosts) (id : String) (to : HostState) (hosts hosts' : Hosts)
    → Kept base hosts
    → transition_state id to hosts ≡ ok hosts'
    → Kept base hosts'
unfolding transition_state
transition-Kept base id to hosts hosts' k h =
    let (_, legacy, h1) = >>=-eq-ok (ensure_legacy_lifecycle id hosts) _ h in
    let (x, _, h2) = >>=-eq-ok (or_fail (find (with_id id) hosts) CatalogError.not_found) _ h1 in
    let (_, _, h3) =
      >>=-eq-ok (refuse_if (not (can_become x.state to)) CatalogError.invalid_transition) _ h2 in
    let moved =
      update-Free id (λ x. record x { state = to }) base hosts (λ x. refl) (λ x. refl)
        (record { kept = k; free = ensure-Unguarded id hosts k.unique legacy }) in
    subst (Kept base) (written h3) moved.kept

update_provider-Free :
    (id provider_id : String) (base hosts hosts' : Hosts)
    → Free id base hosts
    → update_host_provider_id id provider_id hosts ≡ ok hosts'
    → Free id base hosts'
unfolding update_host_provider_id
update_provider-Free id provider_id base hosts hosts' s h =
    let (_, _, h1) = >>=-eq-ok (ensure_legacy_lifecycle id hosts) _ h in
    subst (Free id base) (written h1) (
      update-Free id (λ x. record x { provider_id = provider_id }) base hosts (λ x. refl)
        (λ x. refl) s)

update_state-Free :
    (id : String) (to : HostState) (base hosts hosts' : Hosts)
    → Free id base hosts
    → update_state id to hosts ≡ ok hosts'
    → Free id base hosts'
unfolding update_state
update_state-Free id to base hosts hosts' s h =
    let (_, _, h1) = >>=-eq-ok (ensure_legacy_lifecycle id hosts) _ h in
    subst (Free id base) (written h1)
      (update-Free id (λ x. record x { state = to }) base hosts (λ x. refl) (λ x. refl) s)

connection-Free :
    (id : String) (info : DbConnectionInfo) (base hosts hosts' : Hosts)
    → Free id base hosts
    → ◌≡◌ {A = Result CatalogError Hosts} (ok (update_db_connection_info id info hosts)) (ok hosts')
    → Free id base hosts'
unfolding update_db_connection_info
connection-Free id info base hosts hosts' s h =
    subst (Free id base) (written h) (
      update-Free id (λ x. record x { connection = some info }) base hosts (λ x. refl) (λ x. refl)
        s)
