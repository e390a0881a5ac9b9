-- ===== src/Capacity/Inversion.antt =====
-- What a call that succeeded did to the tables: each statement's effect, for the proofs about steps.
use crane_oss.Base.{
  Bool, true, false, ◌≡◌, refl, List, ◌∷◌, [], ◌++◌, arith, Result, ok, ◌>>=◌, refuse_if,
}
use crane_oss.Base.Tables.{count, update, any}
use crane_oss.Capacity.Db.{Error, Db, OperationRow, Host}
use crane_oss.Capacity.Intents.{insert_row}
use crane_oss.Capacity.Leases.{fenced_update}
use crane_oss.Capacity.Provision.{fenced_host_update}

-- A fenced statement touched exactly one operation, and nothing but the operations.
pub fenced_update-eq-ok :
    (p : OperationRow → Bool) (f : OperationRow → OperationRow) (db db' : Db)
    → fenced_update p f db ≡ ok db'
    → (count p db.operations ≡ 1) × (db' ≡ record db { operations = update p f db.operations })
unfolding fenced_update
fenced_update-eq-ok p f db db' h = ground arith

pub fenced_host_update-eq-ok :
    (p : Host → Bool) (f : Host → Host) (db db' : Db)
    → fenced_host_update p f db ≡ ok db'
    → (count p db.hosts ≡ 1) × (db' ≡ record db { hosts = update p f db.hosts })
unfolding fenced_host_update
fenced_host_update-eq-ok p f db db' h = ground arith

pub insert_row-eq-ok :
    {A : Type 0} (clash : A → Bool) (x : A) (xs ys : List A)
    → insert_row clash x xs ≡ ok ys
    → (any clash xs ≡ false) × (ys ≡ xs ++ x ∷ [])
insert_row-eq-ok clash x xs ys h = ground arith

-- The part behind a Go guard that let the call pass.
pub after_guard {κ} :
    {A : Type κ} (b : Bool) (e : Error) (k : Result Error A) {a : A}
    → (refuse_if b e >>= λ _. k) ≡ ok a
    → (b ≡ false) × (k ≡ ok a)
after_guard true e k h = cc
after_guard false e k h = (refl, h)
