-- ===== src/Execute/Scenarios.antt =====
-- A queue, a catalog of three hosts and a provider that answers every call, to run the theorems on.
use crane_oss.Base.{ℕ, String, ◌≡◌, refl, Bool, true, false, none, some, [], ◌∷◌, ok}
use crane_oss.Base.Tables.{update}
use crane_oss.Base.{eqb}
use crane_oss.Base.Rows.{Grows}
use crane_oss.Api.{HostState, booting, ready}
use crane_oss.Hosts.Catalog.{CatalogHost, managed_capacity}
use crane_oss.Execute.Queue.{
  drain_host, replace_host, ActionRequest, pending, Actions, ActionRecord, ActionRow, start_row,
  next_row, next_action,
}
use crane_oss.Execute.Order.{Fetched, next_action-Fetched}
use crane_oss.Execute.Worker.{Executor, Marks, round}
use crane_oss.Execute.Dispatch.{enqueues, rounds, run, run-world, NotFailedAnew, round-not_failed}
use crane_oss.Execute.Executor.{Provider, World, ExecuteError, catalog, execute}
use crane_oss.Execute.Protection.{KeepsGuarded}
use crane_oss.Execute.Protection.Actions.{execute-KeepsGuarded}
use crane_oss.Execute.Protection.Order.{execute-guarded}

abbrev host : String → HostState → Bool → CatalogHost
host id state managed = record {
  id = id;
  role = "worker";
  zone = "z";
  image_id = "ami";
  state = state;
  health = "healthy";
  created_at = 1;
  provider = "aws";
  provider_id = "i-1";
  last_seen = none;
  connection = none;
  protected = false;
  managed = managed;
}

abbrev world : World
world = record {
  hosts = host "a" ready true ∷ host "b" booting false ∷ host "c" ready false ∷ [];
  calls = [];
}

abbrev provider : Provider
provider = record {
  provision_host_answer = λ id. ok "i-2";
  terminate_host_answer = λ id. none;
  provision_lb_answer = ok "lb";
  provision_spire_db_answer = ok (record {
    endpoint = "db";
    port = 5432;
    db_name = "spire";
    username = "u";
    secret_arn = "s";
    sg_id = "sg";
  });
  provision_spire_host_answer = λ id. ok "i-3";
  register_targets_answer = λ id. none;
}

abbrev request : ActionRequest
request = record { host_id = "c"; action = replace_host; provider = "aws" }

abbrev executor : Executor ExecuteError World
executor host_id action = execute provider "new" 5 host_id action

abbrev nothing_locked : ℕ → Bool
nothing_locked id = false

abbrev answering : Marks
answering = record { marks_failed = true; marks_done = true }

abbrev queue : Actions
queue = record {
  rows =
      record {
        id = 0;
        host_id = "b";
        status = pending;
        attempts = 0;
        action = replace_host;
        created_at = 1;
        updated_at = none;
        provider = some "aws";
      }
      ∷ [];
  serial = 1;
}

run-world_example :
    (run executor
      (enqueues request 1
        ∷ rounds answering nothing_locked 2
        ∷ rounds answering nothing_locked 3
        ∷ [])
      (record { rows = []; serial = 0 }, world)).1
    ≡ world
run-world_example =
    run-world executor
      (enqueues request 1
        ∷ rounds answering nothing_locked 2
        ∷ rounds answering nothing_locked 3
        ∷ [])
      (record { rows = []; serial = 0 }) world tt

round-not_failed_example :
    Grows NotFailedAnew queue.rows (round executor answering nothing_locked 4 (queue, world)).0.rows
round-not_failed_example = round-not_failed executor answering nothing_locked 4 queue world refl

execute-KeepsGuarded_example :
    Grows KeepsGuarded world.hosts (execute provider "new" 5 "c" replace_host world).1.hosts
execute-KeepsGuarded_example =
    execute-KeepsGuarded provider "new" 5 "c" replace_host world (refl, (refl, (refl, tt)))

execute-guarded_example :
    execute provider "new" 5 "a" drain_host world ≡ (some (catalog managed_capacity), world)
execute-guarded_example =
    execute-guarded provider "new" 5 "a" drain_host world (host "a" ready true) refl refl refl

abbrev fetched : ActionRecord
fetched = record { id = 0; host_id = "b"; action = replace_host; attempts = 1; provider = "aws" }

abbrev after_fetch : Actions
after_fetch = record queue {
  rows = update (λ (x : ActionRow). eqb x.id 0) (start_row 4) queue.rows;
}

fetches : next_action nothing_locked 4 queue ≡ (ok fetched, after_fetch)
unfolding next_action next_row
fetches = refl

next_action-Fetched_example : Fetched nothing_locked 4 queue fetched after_fetch
next_action-Fetched_example = next_action-Fetched nothing_locked 4 queue fetched after_fetch fetches
