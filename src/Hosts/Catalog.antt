-- ===== src/Hosts/Catalog.antt =====
-- hostcatalog/store/repository.go and hostcatalog/service/service.go: reads and writes of the table
-- `host`, and the service's guards. `managed` says that node_group_id is not NULL.
use crane_oss.Base.{
  ℕ, String, Bool, false, Option, none, some, List, [], ◌∷◌, ◌++◌, ◌==◌, Result, ok, err, ◌>>=◌,
  ◌>>◌, refuse_if, or_fail, if◌then◌else◌, not,
}
use crane_oss.Base.Tables.{find, any, filter, update}
use crane_oss.Api.{HostState, provisioning}
use crane_oss.Hosts.Lifecycle.{can_become}

pub record DbConnectionInfo : Type 0 where
  pub endpoint : String
  pub port : ℕ
  pub db_name : String
  pub username : String
  pub secret_arn : String
  pub sg_id : String

pub record CatalogHost : Type 0 where
  pub id : String
  pub role : String
  pub zone : String
  pub image_id : String
  pub state : HostState
  pub health : String
  pub created_at : ℕ
  pub provider : String
  pub provider_id : String
  pub last_seen : Option ℕ
  pub connection : Option DbConnectionInfo
  pub protected : Bool
  pub managed : Bool

pub data CatalogError : Type 0 where
  no_rows duplicate managed_capacity protected_host not_found invalid_transition : CatalogError

abbrev pub Hosts : Type 0
Hosts = List CatalogHost

abbrev pub with_id : String → CatalogHost → Bool
with_id id h = h.id == id

-- QueryRow and Scan of the columns managed and protected.
unfoldable pub ensure_legacy_lifecycle : String → Hosts → Result CatalogError (Unit {0})
ensure_legacy_lifecycle id hosts = do
  h ← or_fail (find (with_id id) hosts) no_rows
  refuse_if h.protected protected_host
  refuse_if h.managed managed_capacity

unfoldable pub get_by_id : String → Hosts → Result CatalogError CatalogHost
get_by_id id hosts = or_fail (find (with_id id) hosts) no_rows

unfoldable pub get_by_provider_id : String → Hosts → Result CatalogError CatalogHost
get_by_provider_id id hosts =
    or_fail (find (λ (h : CatalogHost). h.provider_id == id) hosts) no_rows

unfoldable pub insert_host : CatalogHost → Hosts → Result CatalogError Hosts
insert_host h hosts = if any (with_id h.id) hosts then err duplicate else ok (hosts ++ h ∷ [])

-- An UPDATE that matches no row is no error.
abbrev pub update_host : String → (CatalogHost → CatalogHost) → Hosts → Hosts
update_host id = update (with_id id)

-- CreateHost: `id` is the fresh UUID.
unfoldable pub create_host : String → ℕ → String → Hosts → Result CatalogError Hosts
create_host id now provider = insert_host (record {
  id = id;
  role = "";
  zone = "us-west-2";
  image_id = "";
  state = provisioning;
  health = "";
  created_at = now;
  provider = provider;
  provider_id = "";
  last_seen = none;
  connection = none;
  protected = false;
  managed = false;
})

unfoldable pub transition_state : String → HostState → Hosts → Result CatalogError Hosts
transition_state id to hosts = do
  ensure_legacy_lifecycle id hosts
  h ← or_fail (find (with_id id) hosts) not_found
  refuse_if (not (can_become h.state to)) invalid_transition
  ok (update_host id (λ h. record h { state = to }) hosts)

unfoldable pub transition_health : String → String → Hosts → Hosts
transition_health id health = update_host id (λ h. record h { health = health })

unfoldable pub update_last_seen_heartbeat : String → ℕ → Hosts → Hosts
update_last_seen_heartbeat id time = update_host id (λ h. record h { last_seen = some time })

unfoldable pub update_host_provider_id : String → String → Hosts → Result CatalogError Hosts
update_host_provider_id id provider_id hosts = do
  ensure_legacy_lifecycle id hosts
  ok (update_host id (λ h. record h { provider_id = provider_id }) hosts)

unfoldable pub update_state : String → HostState → Hosts → Result CatalogError Hosts
update_state id to hosts = do
  ensure_legacy_lifecycle id hosts
  ok (update_host id (λ h. record h { state = to }) hosts)

unfoldable pub delete_host : String → Hosts → Result CatalogError Hosts
delete_host id hosts = do
  ensure_legacy_lifecycle id hosts
  ok (filter (λ h. not (with_id id h)) hosts)

unfoldable pub update_db_connection_info : String → DbConnectionInfo → Hosts → Hosts
update_db_connection_info id info = update_host id (λ h. record h { connection = some info })

-- The query has no WHERE clause: the zone is not read.
unfoldable pub get_by_zone : String → Hosts → Hosts
get_by_zone zone hosts = hosts
