-- ===== src/Capacity/Groups.antt =====
-- A node group at two times.
use crane_oss.Base.{◌≤◌, ◌≡◌, refl, ◌∙◌, arith}
use crane_oss.Capacity.Db.{NodeGroup}

abbrev pub InBounds : NodeGroup → Type 0
InBounds g = (g.min_nodes ≤ g.target_nodes) × (g.target_nodes ≤ g.max_nodes)

-- Only the target with its revision and the template differ, and the target differs only with its
-- revision.
pub record GroupLater (x y : NodeGroup) : Type 0 where
  pub same : y ≡ record x {
    target_nodes = y.target_nodes;
    target_revision = y.target_revision;
    template_revision = y.template_revision;
    scheduling = y.scheduling;
    launch_parameters = y.launch_parameters;
  }
  pub revision_le : x.target_revision ≤ y.target_revision
  pub target_moves : x.target_revision ≡ y.target_revision → x.target_nodes ≡ y.target_nodes
  pub in_bounds : InBounds x → InBounds y

pub GroupLater-refl : (x : NodeGroup) → GroupLater x x
GroupLater-refl x = record {
  same = refl;
  revision_le = omega arith;
  target_moves = λ e. refl;
  in_bounds = λ b. b;
}

pub GroupLater-trans : (x y z : NodeGroup) → GroupLater x y → GroupLater y z → GroupLater x z
GroupLater-trans x y z a b = record {
  same = cc (a.same, b.same);
  revision_le = omega (arith, a.revision_le, b.revision_le);
  target_moves = λ e.
      a.target_moves (omega (arith, a.revision_le, b.revision_le))
      ∙ b.target_moves (omega (arith, a.revision_le, b.revision_le));
  in_bounds = λ i. b.in_bounds (a.in_bounds i);
}
