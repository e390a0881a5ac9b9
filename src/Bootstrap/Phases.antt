-- ===== src/Bootstrap/Phases.antt =====
-- catalog.go (BootstrapPhase): the phases of the bootstraps over one call.
use crane_oss.Base.{
  ℕ, String, ◌≡◌, refl, sym, ap, subst, ◌∙◌, Bool, true, false, not, ◌&&◌, ◌==◌, eq_iff, ◌⊎◌, inl,
  inr, some, List, Bool-cases, if◌then◌else◌, ok, ok-injective, refuse_if, refuse_if-eq-ok, or_fail,
  or_fail-eq-ok, >>=-eq-ok,
}
use crane_oss.Base.Tables.{any, find, update}
use crane_oss.Base.Rows.{All-map, Grows, Grows-update_All, Unique, Unique-any, find-any_and}
use crane_oss.Api.{Kind, provision, create_cluster, attach_zone, remove_node, Operation}
use crane_oss.Capacity.Db.{fenced, external}
use crane_oss.Bootstrap.Store.{
  ZoneBootstrapPhase, zone_ready, zone_failed, BootstrapDb, BootstrapRow, phase_after,
  bootstrap_next, same_phase, is_next, is_creation, is_held_by, find_bootstrap, hand_off,
  write_phase, end_operation, is_final, bootstrap_phase,
}
use crane_oss.Bootstrap.Statements.{hand_off-phases}

-- A row keeps its operation, and its phase or the one after it; where that is the last one, `V` holds
-- of the operation.
pub record Moves (V : String → Type 0) (x y : BootstrapRow) : Type 0 where
  pub operation_id : y.operation_id ≡ x.operation_id
  pub moved :
      (y.phase ≡ x.phase)
      ⊎ ((is_next (phase_after x.phase) y.phase ≡ true)
          × (same_phase y.phase zone_ready ≡ true → V x.operation_id))

pub Moves-refl : (V : String → Type 0) (x : BootstrapRow) → Moves V x x
Moves-refl V x = record { operation_id = refl; moved = inl refl }

phase_of-kind :
    (k : Kind) (phase next : ZoneBootstrapPhase)
    → is_next (bootstrap_next k phase) next ≡ true
    → is_next (phase_after phase) next ≡ true
phase_of-kind provision phase next h = cc
phase_of-kind create_cluster phase next h = h
phase_of-kind attach_zone phase next h = cc
phase_of-kind remove_node phase next h = cc

unless_true : (a b : Bool) → (a && not b) ≡ false → a ≡ true → b ≡ true
unless_true a true h k = refl
unless_true true false h k = cc
unless_true false false h k = cc

allowed_next :
    (failing allowed : Bool)
    → failing ≡ false
    → (not failing && not allowed) ≡ false
    → allowed ≡ true
allowed_next failing true f h = refl
allowed_next true false f h = cc
allowed_next false false f h = cc

end_operation-phases :
    (id : String) (next : ZoneBootstrapPhase) (now : ℕ) (b : BootstrapDb)
    → (end_operation id next now b).bootstraps ≡ b.bootstraps
end_operation-phases id next now b = elim (Bool-cases (is_final next)) [
  | inl e ↦ rw e
  | inr e ↦ rw e
]

handed-phases :
    (g : Bool) (cluster zone : String) (b c : BootstrapDb)
    → (if g then hand_off cluster zone b else ok b) ≡ ok c
    → c.bootstraps ≡ b.bootstraps
handed-phases true cluster zone b c h = hand_off-phases cluster zone b c h
handed-phases false cluster zone b c h = sym (ap (λ d. d.bootstraps) (ok-injective b c refl h))

write_phase-Moves :
    (V : String → Type 0) (id : String) (next : ZoneBootstrapPhase) (row : BootstrapRow)
    (xs : List BootstrapRow)
    → Unique (λ (r : BootstrapRow). r.operation_id) xs
    → find (λ (r : BootstrapRow). r.operation_id == id) xs ≡ some row
    → is_next (phase_after row.phase) next ≡ true
    → (same_phase next zone_ready ≡ true → V id)
    → Grows
        (Moves V)
        xs
        (update (λ (r : BootstrapRow). r.operation_id == id) (λ r. record r { phase = next }) xs)
write_phase-Moves V id next row xs u found allowed ready =
    Grows-update_All (Moves V) (λ (r : BootstrapRow). r.operation_id == id) _ (Moves-refl V) xs
      (All-map (λ (r : BootstrapRow). r.operation_id ≡ id → as_read r ≡ true) _
        (λ r h e. record {
          operation_id = refl;
          moved = inr (
            h ((eq_iff r.operation_id id).0 e),
            λ last. subst V (sym ((eq_iff r.operation_id id).0 e)) (ready last),
          );
        })
        xs
        (Unique-any (λ (r : BootstrapRow). r.operation_id) id as_read xs u
          (find-any_and (λ (r : BootstrapRow). r.operation_id == id) as_read xs row found allowed)))
  where
    as_read : BootstrapRow → Bool
    as_read r = is_next (phase_after r.phase) next

pub bootstrap_phase-Moves :
    (V : String → Type 0) (op : Operation) (next : ZoneBootstrapPhase) (v : Bool) (now : ℕ)
    (b c : BootstrapDb)
    → Unique (λ (r : BootstrapRow). r.operation_id) b.bootstraps
    → same_phase next zone_failed ≡ false
    → (v ≡ true → V op.id)
    → bootstrap_phase op next v now b ≡ ok c
    → Grows (Moves V) b.bootstraps c.bootstraps
unfolding bootstrap_phase
bootstrap_phase-Moves V op next v now b c u not_failed valid h =
    let (_, _, h1) =
      >>=-eq-ok (refuse_if (not (is_creation op)) (external "not a bootstrap operation")) _ h in
    let (row, found, h2) = >>=-eq-ok (or_fail (find_bootstrap op.id b) fenced) _ h1 in
    let (_, _, h3) =
      >>=-eq-ok (refuse_if (not (any (is_held_by op now) b.db.operations)) fenced) _ h2 in
    let (_, g4, h4) =
      >>=-eq-ok
        (refuse_if
          (not (same_phase next zone_failed)
            && not (is_next (bootstrap_next op.kind row.phase) next))
          (external "invalid bootstrap phase transition"))
        _ h3 in
    let (_, g5, h5) =
      >>=-eq-ok
        (refuse_if (same_phase next zone_ready && not v)
          (external "bootstrap handoff has not been validated"))
        _ h4 in
    let (handed, e6, h6) =
      >>=-eq-ok
        (if same_phase next zone_ready && not (row.cluster_id == "")
          then hand_off row.cluster_id op.zone_id b
          else ok b)
        _ h5 in
    let same = handed-phases _ row.cluster_id op.zone_id b handed e6 in
    let written =
      sym (ap (λ d. d.bootstraps) (ok-injective _ c refl h6))
      ∙ end_operation-phases op.id next now (write_phase op.id next handed) in
    subst (Grows (Moves V) b.bootstraps)
      (sym (
        written
        ∙ ap
            (update (λ (r : BootstrapRow). r.operation_id == op.id)
              (λ r. record r { phase = next }))
            same))
      (write_phase-Moves V op.id next row b.bootstraps u (or_fail-eq-ok _ fenced row found)
        (phase_of-kind op.kind row.phase next
          (allowed_next (same_phase next zone_failed) _ not_failed (refuse_if-eq-ok _ _ g4)))
        (λ ready.
          valid (unless_true (same_phase next zone_ready) v (refuse_if-eq-ok _ _ g5) ready)))
