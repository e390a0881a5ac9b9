-- ===== src/Capacity/Operations.antt =====
-- The operations table at two times: the rows' intents, fences and ids.
use crane_oss.Base.{
  ℕ, zero, suc, ◌+◌, ◌≤◌, String, ◌≡◌, refl, ap, ◌∙◌, Bool, false, ◌==◌, List, [], ◌∷◌, ◌++◌, arith,
  ok, >>=-eq-ok,
}
use crane_oss.Base.Tables.{any, update}
use crane_oss.Capacity.Db.{Db, OperationRow}
use crane_oss.Capacity.Intents.{
  operation_clash, provision_intent, provision_intents, cancel_intent, cancel_intents,
  cancelled_intents, cancel_pending, cancel_operation, intent_operation,
}
use crane_oss.Capacity.Policy.{Env, Policy}
use crane_oss.Capacity.Inversion.{fenced_update-eq-ok}
use crane_oss.Capacity.Leases.{fenced_update}

-- The columns that the trigger crane_immutable_operation protects, with the id.
pub record SameIntent (x y : OperationRow) : Type 0 where
  pub id : y.id ≡ x.id
  pub kind : y.kind ≡ x.kind
  pub zone_id : y.zone_id ≡ x.zone_id
  pub group_id : y.group_id ≡ x.group_id
  pub host_id : y.host_id ≡ x.host_id
  pub capacity_request_id : y.capacity_request_id ≡ x.capacity_request_id
  pub target_revision : y.target_revision ≡ x.target_revision
  pub provider_token : y.provider_token ≡ x.provider_token
  pub parameters : y.parameters ≡ x.parameters

pub record Later (x y : OperationRow) : Type 0 where
  pub intent : SameIntent x y
  pub fence_le : x.fence ≤ y.fence

pub SameIntent-refl : (x : OperationRow) → SameIntent x x
SameIntent-refl x = record {
  id = refl;
  kind = refl;
  zone_id = refl;
  group_id = refl;
  host_id = refl;
  capacity_request_id = refl;
  target_revision = refl;
  provider_token = refl;
  parameters = refl;
}

pub Later-refl : (x : OperationRow) → Later x x
Later-refl x = record { intent = SameIntent-refl x; fence_le = omega arith }

pub Later-trans : (x y z : OperationRow) → Later x y → Later y z → Later x z
Later-trans x y z a b = record {
  intent = record {
    id = b.intent.id ∙ a.intent.id;
    kind = b.intent.kind ∙ a.intent.kind;
    zone_id = b.intent.zone_id ∙ a.intent.zone_id;
    group_id = b.intent.group_id ∙ a.intent.group_id;
    host_id = b.intent.host_id ∙ a.intent.host_id;
    capacity_request_id = b.intent.capacity_request_id ∙ a.intent.capacity_request_id;
    target_revision = b.intent.target_revision ∙ a.intent.target_revision;
    provider_token = b.intent.provider_token ∙ a.intent.provider_token;
    parameters = b.intent.parameters ∙ a.intent.parameters;
  };
  fence_le = omega (arith, a.fence_le, b.fence_le);
}

pub data Evolves : List OperationRow → List OperationRow → Type 0 where
  same : {xs ys : List OperationRow} → ys ≡ xs → Evolves xs ys
  updated :
      {xs ys : List OperationRow} (p : OperationRow → Bool) (f : OperationRow → OperationRow)
      → ((x : OperationRow) → Later x (f x))
      → ys ≡ update p f xs
      → Evolves xs ys
  inserted :
      {xs ys : List OperationRow} (n : OperationRow)
      → any (operation_clash n) xs ≡ false
      → ys ≡ xs ++ n ∷ []
      → Evolves xs ys
  trans : {xs ys zs : List OperationRow} → Evolves xs ys → Evolves ys zs → Evolves xs zs

-- A statement that keeps the fence keeps the intent by rewriting other columns only.
pub fenced_update-Evolves :
    (p : OperationRow → Bool) (f : OperationRow → OperationRow) (db db' : Db)
    → ((x : OperationRow) → Later x (f x))
    → fenced_update p f db ≡ ok db'
    → Evolves db.operations db'.operations
fenced_update-Evolves p f db db' l h =
    updated p f l (ap (λ (d : Db). d.operations) (fenced_update-eq-ok p f db db' h).1)

cancel_intents-Evolves :
    (now : ℕ) (is : List OperationRow) (db : Db)
    → Evolves db.operations (cancel_intents now is db).operations
unfolding cancel_intents cancel_intent
cancel_intents-Evolves now [] db = same refl
cancel_intents-Evolves now (i ∷ is) db =
    trans
      (updated (λ (o : OperationRow). o.id == i.id) (cancel_operation now) (λ x. ground arith) refl)
      (cancel_intents-Evolves now is (cancel_intent now i db))

pub cancel_pending-Evolves :
    (env : Env) (group_id : String) (count : ℕ) (db : Db)
    → Evolves db.operations (cancel_pending env group_id count db).operations
unfolding cancel_pending
cancel_pending-Evolves env group_id count db =
    trans (cancel_intents-Evolves env.now (cancelled_intents env group_id count db) db)
      (same (ground arith))

module _ (env : Env) (p : Policy) (request_id : String) (revision : ℕ) where
  provision_intent-Evolves :
      (k : ℕ) (db db' : Db)
      → provision_intent env p request_id revision k db ≡ ok db'
      → Evolves db.operations db'.operations
  unfolding provision_intent
  provision_intent-Evolves k db db' h =
      inserted (intent_operation env p request_id revision k) (ground arith) (ground arith)

  pub provision_intents-Evolves :
      (n k : ℕ) (db db' : Db)
      → provision_intents env p request_id revision n k db ≡ ok db'
      → Evolves db.operations db'.operations
  unfolding provision_intents
  provision_intents-Evolves zero k db db' h = same (ground arith)
  provision_intents-Evolves (suc n) k db db' h =
      let (mid, first, rest) = >>=-eq-ok (provision_intent env p request_id revision k db) _ h in
      trans (provision_intent-Evolves k db mid first)
        (provision_intents-Evolves n (k + 4) mid db' rest)
