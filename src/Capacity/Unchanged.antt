-- ===== src/Capacity/Unchanged.antt =====
-- Two states of the store with the same topology, groups and requests.
use crane_oss.Base.{◌≡◌, Bool, arith, ok}
use crane_oss.Capacity.Db.{Db, OperationRow}
use crane_oss.Capacity.Leases.{fenced_update}

pub record SameTopology (db db' : Db) : Type 0 where
  pub zones : db'.zones ≡ db.zones
  pub clusters : db'.clusters ≡ db.clusters
  pub memberships : db'.memberships ≡ db.memberships
  pub pools : db'.pools ≡ db.pools
  pub dominators : db'.dominators ≡ db.dominators

-- The topology, the groups and the requests are as they were.
pub record SamePolicy (db db' : Db) : Type 0 where
  pub topology : SameTopology db db'
  pub groups : db'.groups ≡ db.groups
  pub requests : db'.requests ≡ db.requests

pub SamePolicy-refl : (db : Db) → SamePolicy db db
SamePolicy-refl db = ground arith

pub SameTopology-trans : (a b c : Db) → SameTopology a b → SameTopology b c → SameTopology a c
SameTopology-trans a b c x y = ground arith

pub SamePolicy-trans : (a b c : Db) → SamePolicy a b → SamePolicy b c → SamePolicy a c
SamePolicy-trans a b c x y = ground arith

pub fenced_update-SamePolicy :
    (p : OperationRow → Bool) (f : OperationRow → OperationRow) (db db' : Db)
    → fenced_update p f db ≡ ok db'
    → SamePolicy db db'
unfolding fenced_update
fenced_update-SamePolicy p f db db' h = ground arith
