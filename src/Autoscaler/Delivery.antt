-- ===== src/Autoscaler/Delivery.antt =====
-- The adapter and the capacity store, over a wire that loses requests and answers: a repeated intent
-- is taken for one.
use crane_oss.Base.{
  ◌≡◌, refl, subst, some, List, [], ◌∷◌, Result-cases, inl, inr, ◌⊎◌, Result, ok, err,
}
use crane_oss.Base.Rows.{Unique}
use crane_oss.Api.{CapacityRequest, CapacityResult}
use crane_oss.Capacity.Db.{Error, Db, NodeGroup}
use crane_oss.Capacity.Policy.{Env}
use crane_oss.Capacity.Admission.{set_target}
use crane_oss.Capacity.Steps.{here}
use crane_oss.Capacity.Retries.{set_target-retry}
use crane_oss.Autoscaler.Groups.{Code, unavailable}
use crane_oss.Autoscaler.Server.{Context, retry}
use crane_oss.Autoscaler.Retry.{retry_from-keeps}

-- A wire between the adapter and the store: what becomes of a call, and the clock, the UUIDs and the
-- images at the time of it.
pub data Fate : Type 0 where
  request_lost answer_lost delivered : Fate

pub record Wire : Type 0 where
  pub db : Db
  pub fates : List (Env × Fate)

abbrev commit : Db → Result Error (CapacityResult × Db) → Db
commit db (ok (r, new)) = new
commit db (err e) = db

abbrev answer_to : Result Error (CapacityResult × Db) → (Error → Code) → Result Code (Unit {0})
answer_to (ok r) code_of = ok tt
answer_to (err e) code_of = err (code_of e)

-- One call of SetTarget over the wire; a call beyond the fates is lost.
abbrev deliver : (Error → Code) → CapacityRequest → Fate → Env → Db → Result Code (Unit {0}) × Db
deliver code_of req request_lost env db = (err unavailable, db)
deliver code_of req answer_lost env db = (err unavailable, commit db (set_target env req db))
deliver code_of req delivered env db =
    (answer_to (set_target env req db) code_of, commit db (set_target env req db))

abbrev pub send : (Error → Code) → CapacityRequest → Wire → Result Code (Unit {0}) × Wire
send code_of req w = go w.fates
  where
    go : List (Env × Fate) → Result Code (Unit {0}) × Wire
    go [] = (err unavailable, w)
    go ((env, fate) ∷ rest) =
        let d = deliver code_of req fate env w.db in (d.0, record { db = d.1; fates = rest })

-- The store is as before, or as one success of the request has left it.
abbrev pub Once : CapacityRequest → Db → Db → Type 0
Once req before now =
    (now ≡ before)
    ⊎ ((env : Env) × (r : CapacityResult) × (set_target env req before ≡ ok (r, now)))

commit-Once :
    (env : Env) (req : CapacityRequest) (before now : Db)
    → Unique (λ (g : NodeGroup). g.id) before.groups
    → Once req before now
    → Once req before (commit now (set_target env req now))
commit-Once env req before now u (inl same) = elim (Result-cases (set_target env req now)) [
  | inl ((r, new), e) ↦ rw e (inr (env, r, subst (λ d. set_target env req d ≡ ok (r, new)) same e))
  | inr (code, e) ↦ rw e (inl same)
]
commit-Once env req before now u (inr (env', r, e)) =
    rw (set_target-retry env' env req r before now now u e here) (inr (env', r, e))

deliver-Once :
    (code_of : Error → Code) (req : CapacityRequest) (fate : Fate) (env : Env) (before now : Db)
    → Unique (λ (g : NodeGroup). g.id) before.groups
    → Once req before now
    → Once req before (deliver code_of req fate env now).1
deliver-Once code_of req request_lost env before now u o = o
deliver-Once code_of req answer_lost env before now u o = commit-Once env req before now u o
deliver-Once code_of req delivered env before now u o = commit-Once env req before now u o

send-Once :
    (code_of : Error → Code) (req : CapacityRequest) (before now : Db) (fates : List (Env × Fate))
    → Unique (λ (g : NodeGroup). g.id) before.groups
    → Once req before now
    → Once req before (send code_of req (record { db = now; fates = fates })).1.db
send-Once code_of req before now [] u o = o
send-Once code_of req before now ((env, fate) ∷ rest) u o =
    deliver-Once code_of req fate env before now u o

-- When the adapter retries a SetTarget over a wire that may lose any request and any answer, the
-- store ends as it was or as one success of the request leaves it. Group ids are unique before.
pub retry-Once :
    (ctx : Context) (code_of : Error → Code) (req : CapacityRequest) (w : Wire)
    (answer : Result Code (Unit {0}) × Wire)
    → Unique (λ (g : NodeGroup). g.id) w.db.groups
    → retry ctx (send code_of req) w ≡ some answer
    → Once req w.db answer.1.db
retry-Once ctx code_of req w answer u e =
    retry_from-keeps ctx (send code_of req) (λ v. Once req w.db v.db)
      (λ v o. send-Once code_of req w.db v.db v.fates u o) 3 0 w answer (inl refl) e
