-- ===== src/Capacity/Administration.antt =====
-- What the operator's calls and the bootstrap controller leave of the topology and the groups.
use crane_oss.Base.{
  String, ◌≡◌, refl, sym, subst, Bool, not, ◌&&◌, ◌||◌, ◌==◌, some, List, [], ◌∷◌, arith,
  Bool-cases, inl, inr, ok, ok-injective, refuse_if, or_fail, >>=-eq-ok,
}
use crane_oss.Base.Tables.{any, find, update}
use crane_oss.Base.Rows.{Grows, Grows-refl, Grows-update, Unique, Unique-update}
use crane_oss.Api.{SchedulingTemplate}
use crane_oss.Capacity.Db.{invalid, conflict, no_rows, Db, NodeGroup, NodePool, Zone, Cluster}
use crane_oss.Capacity.Policy.{member_of}
use crane_oss.Capacity.Catalog.{
  Documents, update_node_group_scheduling, change_scheduling, write_scheduling, update_cluster_zone,
  membership_state, access_state_of, is_membership,
}
use crane_oss.Capacity.Groups.{GroupLater, GroupLater-refl}
use crane_oss.Capacity.Unchanged.{SameTopology, SamePolicy}
use crane_oss.Agent.Registration.{is_valid_scheduling}

-- Where the test finds a row, it goes on to find one.
abbrev pub Finds {ℓ} : {A : Type ℓ} → (A → Bool) → List A → List A → Type ℓ
Finds {A = A} p xs ys = (x : A) → find p xs ≡ some x → (y : A) × (find p ys ≡ some y)

pub update-Finds :
    {A : Type 0} (p q : A → Bool) (f : A → A)
    → ((x : A) → p (f x) ≡ p x)
    → (xs : List A) → Finds p xs (update q f xs)
update-Finds p q f h [] x e = cc
update-Finds p q f h (z ∷ zs) x e = elim (Bool-cases (p z)) [
  | inl hit ↦ elim (Bool-cases (q z)) [
    | inl c ↦ (f z, rw (c, h z, hit) refl)
    | inr c ↦ (z, rw (c, hit) refl)
  ]
  | inr miss ↦
      let (y, found) = update-Finds p q f h zs x (rw miss at e) in
      elim (Bool-cases (q z)) [
        | inl c ↦ (y, rw (c, h z, miss) found)
        | inr c ↦ (y, rw (c, miss) found)
      ]
]

-- The rows that the joins of loadPolicy find go on to be found.
pub record TopologyKept (db db' : Db) : Type 0 where
  pub pools : (id : String) → Finds (λ (p : NodePool). p.id == id) db.pools db'.pools
  pub zones : (id : String) → Finds (λ (z : Zone). z.id == id) db.zones db'.zones
  pub clusters : (id : String) → Finds (λ (c : Cluster). c.id == id) db.clusters db'.clusters
  pub memberships : (g : NodeGroup) → Finds (member_of g) db.memberships db'.memberships

pub SameTopology-TopologyKept : (db db' : Db) → SameTopology db db' → TopologyKept db db'
SameTopology-TopologyKept db db' s = record {
  pools = λ id x e. (x, rw s.pools e);
  zones = λ id x e. (x, rw s.zones e);
  clusters = λ id x e. (x, rw s.clusters e);
  memberships = λ g x e. (x, rw s.memberships e);
}

pub TopologyKept-trans : (a b c : Db) → TopologyKept a b → TopologyKept b c → TopologyKept a c
TopologyKept-trans a b c s t = record {
  pools = λ id x e. let (y, f) = s.pools id x e in t.pools id y f;
  zones = λ id x e. let (y, f) = s.zones id x e in t.zones id y f;
  clusters = λ id x e. let (y, f) = s.clusters id x e in t.clusters id y f;
  memberships = λ g x e. let (y, f) = s.memberships g x e in t.memberships g y f;
}

-- A change of the topology or of templates: requests stay, and so do the targets.
pub record Administered (db db' : Db) : Type 0 where
  pub topology : TopologyKept db db'
  pub groups : Grows GroupLater db.groups db'.groups
  pub unique :
      Unique (λ (g : NodeGroup). g.id) db.groups → Unique (λ (g : NodeGroup). g.id) db'.groups
  pub requests : db'.requests ≡ db.requests

-- The groups are the same.
pub unlabelled :
    (db db' : Db)
    → TopologyKept db db'
    → db'.groups ≡ db.groups
    → db'.requests ≡ db.requests
    → Administered db db'
unlabelled db db' t g r = record {
  topology = t;
  groups =
      subst (Grows GroupLater db.groups) (sym g) (Grows-refl GroupLater GroupLater-refl db.groups);
  unique = λ u. subst (Unique (λ (x : NodeGroup). x.id)) (sym g) u;
  requests = r;
}

pub Administered-refl : (db : Db) → Administered db db
Administered-refl db = unlabelled db db (SameTopology-TopologyKept db db (ground arith)) refl refl

pub SamePolicy-Administered : (db db' : Db) → SamePolicy db db' → Administered db db'
SamePolicy-Administered db db' s =
    unlabelled db db' (SameTopology-TopologyKept db db' s.topology) s.groups s.requests

written-Administered :
    (id revision launch : String) (t : SchedulingTemplate) (db : Db)
    → Administered db (write_scheduling id revision t launch db)
written-Administered id revision launch t db = record {
  topology = SameTopology-TopologyKept db _ (ground arith);
  groups =
      Grows-update GroupLater (λ (g : NodeGroup). g.id == id) _ GroupLater-refl
        (λ g e. record {
          same = refl;
          revision_le = omega arith;
          target_moves = λ h. refl;
          in_bounds = λ b. b;
        })
        db.groups;
  unique = Unique-update (λ (g : NodeGroup). g.id) _ _ (λ g. refl) db.groups;
  requests = refl;
}

-- Neither call writes an operation.
pub record AdministeredOnly (db db' : Db) : Type 0 where
  pub administered : Administered db db'
  pub operations : db'.operations ≡ db.operations

changed-AdministeredOnly :
    (x : Documents) (g : NodeGroup) (expected revision : String) (t : SchedulingTemplate)
    (launch : String) (db db' : Db)
    → change_scheduling x g expected revision t launch db ≡ ok db'
    → AdministeredOnly db db'
changed-AdministeredOnly x g expected revision t launch db db' h =
    elim (Bool-cases (g.template_revision == revision)) [
      | inl e ↦
          let (_, _, h1) =
            >>=-eq-ok
              (refuse_if
                (not (x.same_scheduling g.scheduling t && x.same_json g.launch_parameters launch))
                conflict)
              _ (rw e at h) in
          subst (AdministeredOnly db) (ok-injective db db' refl h1)
            (record { administered = Administered-refl db; operations = refl })
      | inr e ↦
          let (_, _, h1) =
            >>=-eq-ok (refuse_if (not (g.template_revision == expected)) conflict) _ (rw e at h) in
          subst (AdministeredOnly db) (ok-injective _ db' refl h1) (record {
            administered = written-Administered g.id revision launch t db;
            operations = refl;
          })
    ]

pub relabel-Administered :
    (x : Documents) (id expected revision : String) (t : SchedulingTemplate) (launch : String)
    (db db' : Db)
    → update_node_group_scheduling x id expected revision t launch db ≡ ok db'
    → AdministeredOnly db db'
unfolding update_node_group_scheduling
relabel-Administered x id expected revision t launch db db' h =
    let (_, _, h1) =
      >>=-eq-ok
        (refuse_if (id == "" || expected == "" || revision == "" || not (x.is_json launch)) invalid)
        _ h in
    let (g, _, h2) =
      >>=-eq-ok (or_fail (find (λ (g : NodeGroup). g.id == id) db.groups) no_rows) _ h1 in
    let (z, _, h3) =
      >>=-eq-ok (or_fail (find (λ (z : Zone). z.id == g.zone_id) db.zones) no_rows) _ h2 in
    let (_, _, h4) =
      >>=-eq-ok (refuse_if (not (is_valid_scheduling x.names t g.node_pool_id)) invalid) _ h3 in
    let (_, _, h5) =
      >>=-eq-ok
        (refuse_if (not (t.region == z.kubernetes_region) || not (t.zone == z.kubernetes_zone))
          invalid)
        _ h4 in
    changed-AdministeredOnly x g expected revision t launch db db' h5

pub membership-Administered :
    (cluster_id zone_id lifecycle access : String) (db db' : Db)
    → update_cluster_zone cluster_id zone_id lifecycle access db ≡ ok db'
    → AdministeredOnly db db'
unfolding update_cluster_zone
membership-Administered cluster_id zone_id lifecycle access db db' h =
    let (_, _, h1) = >>=-eq-ok (refuse_if (cluster_id == "" || zone_id == "") invalid) _ h in
    let (s, _, h2) = >>=-eq-ok (or_fail (membership_state lifecycle) invalid) _ h1 in
    let (a, _, h3) = >>=-eq-ok (or_fail (access_state_of access) invalid) _ h2 in
    let (_, _, h4) =
      >>=-eq-ok (refuse_if (not (any (is_membership cluster_id zone_id) db.memberships)) no_rows) _
        h3 in
    subst (AdministeredOnly db) (ok-injective _ db' refl h4) (record {
      administered =
          unlabelled db _
            (record {
              pools = λ id x e. (x, e);
              zones = λ id x e. (x, e);
              clusters = λ id x e. (x, e);
              memberships = λ g.
                  update-Finds (member_of g) (is_membership cluster_id zone_id) _ (λ m. refl)
                    db.memberships;
            })
            refl refl;
      operations = refl;
    })
