-- ===== src/Execute/Protection/Order.antt =====
-- The order of the guards, the provider's calls and the catalog's writes in drain and replace.
use crane_oss.Base.{
  ℕ, String, ◌≡◌, refl, Bool, true, false, ◌||◌, some, arith, ok, err, ◌>>=◌, refuse_if,
}
use crane_oss.Base.Tables.{find}
use crane_oss.Hosts.Catalog.{
  CatalogHost, CatalogError, managed_capacity, protected_host, with_id, ensure_legacy_lifecycle,
}
use crane_oss.Execute.Queue.{
  ActionType, create_host, drain_host, replace_host, create_lb, create_db, create_spire_instance,
  other_action,
}
use crane_oss.Execute.Executor.{Provider, World, catalog, execute, guarded}
use crane_oss.Execute.Protection.{is_guarded}

-- The actions on a host that exists.
abbrev pub is_host_action : ActionType → Bool
is_host_action drain_host = true
is_host_action replace_host = true
is_host_action _ = false

abbrev pub refusal : CatalogHost → CatalogError
refusal h = elim h.protected [ true ↦ protected_host | false ↦ managed_capacity ]

ensure-guarded :
    (host_id : String) (w : World) (h : CatalogHost)
    → find (with_id host_id) w.hosts ≡ some h
    → is_guarded h ≡ true
    → ensure_legacy_lifecycle host_id w.hosts ≡ err (refusal h)
unfolding ensure_legacy_lifecycle
ensure-guarded host_id w h found g = rw found (cases h.protected h.managed g)
  where
    cases :
        (p m : Bool)
        → (p || m) ≡ true
        → (refuse_if p protected_host >>= λ _. refuse_if m managed_capacity)
          ≡ err (elim p as (λ _. CatalogError) [ true ↦ protected_host | false ↦ managed_capacity ])
    cases true m g = refl
    cases false true g = refl
    cases false false g = cc

ensure-open :
    (host_id : String) (w : World) (h : CatalogHost)
    → find (with_id host_id) w.hosts ≡ some h
    → is_guarded h ≡ false
    → ensure_legacy_lifecycle host_id w.hosts ≡ ok tt
unfolding ensure_legacy_lifecycle
ensure-open host_id w h found free = rw found (ground (arith, free))

-- A drain or a replacement of a host that is protected, or managed by capacity operations, fails
-- before any call of the provider and before any write.
pub execute-guarded :
    (p : Provider) (uuid : String) (now : ℕ) (host_id : String) (action : ActionType) (w : World)
    (h : CatalogHost)
    → is_host_action action ≡ true
    → find (with_id host_id) w.hosts ≡ some h
    → is_guarded h ≡ true
    → execute p uuid now host_id action w ≡ (some (catalog (refusal h)), w)
unfolding execute
execute-guarded p uuid now host_id drain_host w h a found g =
    rw (ensure-guarded host_id w h found g, guarded) refl
execute-guarded p uuid now host_id replace_host w h a found g =
    rw (ensure-guarded host_id w h found g, guarded) refl
execute-guarded p uuid now host_id create_host w h a found g = cc
execute-guarded p uuid now host_id create_lb w h a found g = cc
execute-guarded p uuid now host_id create_db w h a found g = cc
execute-guarded p uuid now host_id create_spire_instance w h a found g = cc
execute-guarded p uuid now host_id (other_action name) w h a found g = cc
