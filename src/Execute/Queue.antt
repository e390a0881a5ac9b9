-- ===== src/Execute/Queue.antt =====
-- action.go and postgres_action_store.go: the table `actions` as a queue. A NULL column is `none`.
use crane_oss.Base.{
  ℕ, ◌+◌, String, Bool, true, false, ◌&&◌, Option, none, some, List, [], ◌∷◌, ◌++◌, eqb, leb,
  Result, ok, err, if◌then◌else◌,
}
use crane_oss.Base.Tables.{filter, update, sort_by}
use crane_oss.Base.Sorting.{first}

pub data ActionType : Type 0 where
  create_host drain_host replace_host create_lb create_db create_spire_instance : ActionType
  other_action : String → ActionType

pub data ActionStatus : Type 0 where
  pending running done failed : ActionStatus

-- What Enqueue is handed; only the host and the type of it are written.
pub record ActionRequest : Type 0 where
  pub host_id : String
  pub action : ActionType
  pub provider : String

pub record ActionRow : Type 0 where
  pub id : ℕ
  pub host_id : String
  pub status : ActionStatus
  pub attempts : ℕ
  pub action : ActionType
  pub created_at : ℕ
  pub updated_at : Option ℕ
  pub provider : Option String

-- `serial` is the sequence of the ids.
pub record Actions : Type 0 where
  pub rows : List ActionRow
  pub serial : ℕ

-- The record that Next scans out of the row that it has set to running.
pub record ActionRecord : Type 0 where
  pub id : ℕ
  pub host_id : String
  pub action : ActionType
  pub attempts : ℕ
  pub provider : String

pub data QueueError : Type 0 where
  no_rows null_provider : QueueError

abbrev pub is_waiting : ActionStatus → Bool
is_waiting pending = true
is_waiting _ = false

unfoldable pub enqueue : ActionRequest → ℕ → Actions → Actions
enqueue a now q = record {
  rows =
      q.rows
      ++ record {
        id = q.serial;
        host_id = a.host_id;
        status = pending;
        attempts = 0;
        action = a.action;
        created_at = now;
        updated_at = none;
        provider = none;
      }
        ∷ [];
  serial = q.serial + 1;
}

abbrev pub created_first : ActionRow → ActionRow → Bool
created_first a b = leb a.created_at b.created_at

abbrev pub available : (ℕ → Bool) → ActionRow → Bool
available locked r = is_waiting r.status && (if locked r.id then false else true)

unfoldable pub next_row : (ℕ → Bool) → Actions → Option ActionRow
next_row locked q = first (sort_by created_first (filter (available locked) q.rows))

abbrev pub start_row : ℕ → ActionRow → ActionRow
start_row now r = record r { status = running; updated_at = some now; attempts = r.attempts + 1 }

-- Scan writes the columns to Go variables: a NULL provider is no string, and Scan fails.
abbrev pub scan_action : ActionRow → Result QueueError ActionRecord
scan_action r = elim r.provider [
  | none ↦ err null_provider
  | some p ↦ ok (record {
    id = r.id;
    host_id = r.host_id;
    action = r.action;
    attempts = r.attempts;
    provider = p;
  })
]

-- The UPDATE is committed by the time its row is scanned. `locked` are the rows that SKIP LOCKED
-- passes over.
unfoldable pub next_action : (ℕ → Bool) → ℕ → Actions → Result QueueError ActionRecord × Actions
next_action locked now q = elim (next_row locked q) [
  | none ↦ (err no_rows, q)
  | some r ↦ (
    scan_action (start_row now r),
    record q { rows = update (λ (x : ActionRow). eqb x.id r.id) (start_row now) q.rows },
  )
]

abbrev pub set_status : ActionStatus → ℕ → ℕ → Actions → Actions
set_status s now id q = record q {
  rows =
      update (λ (x : ActionRow). eqb x.id id) (λ x. record x { status = s; updated_at = some now })
        q.rows;
}

unfoldable pub mark_done : ℕ → ℕ → Actions → Actions
mark_done now id = set_status done now id

unfoldable pub mark_failed : ℕ → ℕ → Actions → Actions
mark_failed now id = set_status failed now id
