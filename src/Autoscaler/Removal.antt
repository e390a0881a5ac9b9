-- ===== src/Autoscaler/Removal.antt =====
-- The adapter's removals against the store: with a topology from the store no node has a name, and the
-- store refuses a removal without one.
use crane_oss.Base.{
  String, ◌≡◌, refl, ap, subst, true, false, not, ◌&&◌, ◌||◌, ◌==◌, eq_iff, List, [], ◌∷◌, arith,
  Bool-cases, inl, inr, eqb, length, ok, err, ok-injective, refuse_if, refuse_if-eq-ok, or_fail,
  or_fail-eq-ok, >>=-eq-ok, is_negative,
}
use crane_oss.Base.Tables.{any, find}
use crane_oss.Base.Rows.{All, find-All}
use crane_oss.Api.{RemovalNode}
use crane_oss.Capacity.Db.{invalid, Db}
use crane_oss.Capacity.Policy.{Env}
use crane_oss.Capacity.Removals.{bad_nodes, create_autoscaler_removals}
use crane_oss.Autoscaler.Groups.{
  invalid_argument, not_found, internal, AutoscalerNode, AutoscalerGroup, Node, StaticNodeGroup,
  discovered_nodes, discovered_groups_from, discovered_groups, is_bad_group, is_architecture,
  overrides, group_labels,
}
use crane_oss.Autoscaler.Server.{
  Target, Server, find_group, matches, verify, removal_nodes, removal_request, named_nodes,
}

abbrev Unnamed : Node → Type 0
Unnamed n = n.name ≡ ""

discovered_nodes-Unnamed :
    (known : List String) (ns : List AutoscalerNode) (r : List String × List Node)
    → discovered_nodes known ns ≡ ok r
    → All Unnamed r.1
unfolding discovered_nodes
discovered_nodes-Unnamed known [] r h = subst (λ s. All Unnamed s.1) (ok-injective _ r refl h) tt
discovered_nodes-Unnamed known (n ∷ ns) r h =
    let (_, _, h1) =
      >>=-eq-ok
        (refuse_if (n.host_id == "" || n.provider_id == "" || any (λ id. id == n.provider_id) known)
          internal)
        _ h in
    let (rest, e, h2) = >>=-eq-ok (discovered_nodes (n.provider_id ∷ known) ns) _ h1 in
    subst (λ s. All Unnamed s.1) (ok-injective _ r refl h2)
      (refl, discovered_nodes-Unnamed (n.provider_id ∷ known) ns rest e)

abbrev AllUnnamed : StaticNodeGroup → Type 0
AllUnnamed g = All Unnamed g.nodes

discovered_groups-Unnamed :
    (ids known : List String) (gs : List AutoscalerGroup) (r : List StaticNodeGroup)
    → discovered_groups_from ids known gs ≡ ok r
    → All AllUnnamed r
unfolding discovered_groups_from
discovered_groups-Unnamed ids known [] r h = subst (All AllUnnamed) (ok-injective _ r refl h) tt
discovered_groups-Unnamed ids known (g ∷ gs) r h =
    let (_, _, h1) = >>=-eq-ok (refuse_if (is_bad_group ids g) internal) _ h in
    let (_, _, h2) =
      >>=-eq-ok
        (refuse_if
          (not (g.scheduling.architecture == "") && not (is_architecture g.scheduling.architecture))
          internal)
        _ h1 in
    let (_, _, h3) =
      >>=-eq-ok (refuse_if (any (overrides g.scheduling.labels) (group_labels g)) internal) _ h2 in
    let (nodes, e, h4) = >>=-eq-ok (discovered_nodes known g.nodes) _ h3 in
    let (rest, e', h5) = >>=-eq-ok (discovered_groups_from (g.id ∷ ids) nodes.0 gs) _ h4 in
    subst (All AllUnnamed) (ok-injective _ r refl h5) (
      discovered_nodes-Unnamed known g.nodes nodes e,
      discovered_groups-Unnamed (g.id ∷ ids) nodes.0 gs rest e',
    )

bad_nodes-unnamed :
    (n : RemovalNode) (ns : List RemovalNode) → n.node_name ≡ "" → bad_nodes [] (n ∷ ns) ≡ true
unfolding bad_nodes
bad_nodes-unnamed n ns e = ground (arith, eq_iff n.node_name "")

-- The first node of a removal has no name.
removal_nodes-unnamed :
    (srv : Server) (g : StaticNodeGroup) (seen : List String) (named : List (String × String))
    (ns : List RemovalNode)
    → AllUnnamed g
    → eqb (length named) 0 ≡ false
    → removal_nodes srv g seen named ≡ ok ns
    → bad_nodes [] ns ≡ true
unfolding removal_nodes bad_nodes
removal_nodes-unnamed srv g seen [] ns u l h = cc
removal_nodes-unnamed srv g seen ((name, provider_id) ∷ rest) ns u l h =
    let (known, k, h1) =
      >>=-eq-ok (or_fail (find (matches srv name provider_id) g.nodes) invalid_argument) _ h in
    let (_, _, h2) =
      >>=-eq-ok (refuse_if (any (λ host. host == known.host_id) seen) invalid_argument) _ h1 in
    let (_, _, h3) = >>=-eq-ok (verify srv name provider_id) _ h2 in
    let (nodes, _, h4) = >>=-eq-ok (removal_nodes srv g (known.host_id ∷ seen) rest) _ h3 in
    let blank : known.name ≡ "" =
      find-All Unnamed _ g.nodes known u (or_fail-eq-ok _ invalid_argument known k) in
    subst (λ m. bad_nodes [] m ≡ true) (ok-injective _ ns refl h4)
      (bad_nodes-unnamed
        (record {
          host_id = known.host_id;
          node_name = known.name;
          provider_id = known.provider_id;
        })
        nodes blank)

-- With a topology that the store has described, a removal that the adapter has put together is one
-- that the store refuses as invalid, whatever nodes the autoscaler names, with or without a verifier.
pub delete-refused :
    (env : Env) (cluster_id : String) (db : Db) (srv : Server) (gs : List AutoscalerGroup)
    (id uuid : String) (named : List (String × String)) (g : StaticNodeGroup)
    (removals : List RemovalNode) (t : Target)
    → discovered_groups gs ≡ ok srv.groups
    → named_nodes srv id named ≡ ok (g, removals)
    → create_autoscaler_removals env cluster_id (removal_request g uuid removals t) db ≡ err invalid
unfolding create_autoscaler_removals
delete-refused env cluster_id db srv gs id uuid named g removals t d n =
    let (g', found, n1) = >>=-eq-ok (find_group srv id) _ n in
    let (_, some_named, n2) = >>=-eq-ok (refuse_if (eqb (length named) 0) invalid_argument) _ n1 in
    let (ns, listed, n3) = >>=-eq-ok (removal_nodes srv g' [] named) _ n2 in
    let unnamed : AllUnnamed g' =
      find-All AllUnnamed _ srv.groups g' (discovered_groups-Unnamed [] [] gs srv.groups d)
        (or_fail-eq-ok _ not_found g' found) in
    let bad : bad_nodes [] ns ≡ true =
      removal_nodes-unnamed srv g' [] named ns unnamed (refuse_if-eq-ok _ _ some_named) listed in
    let same : ns ≡ removals = ap (λ p. p.1) (ok-injective _ (g, removals) refl n3) in
    let bad' : bad_nodes [] removals ≡ true = subst (λ m. bad_nodes [] m ≡ true) same bad in
    elim (Bool-cases (
      cluster_id == ""
      || g.id == ""
      || uuid == ""
      || is_negative t.target_revision
      || eqb (length removals) 0)) [ inl e ↦ rw e refl | inr e ↦ rw (e, bad') refl ]
