-- ===== src/Graph/Builder/Reachable.antt =====
-- What every graph that can be built keeps: the start never opens a region.
use perpetua_core.Prelude.{
  ℕ, String, ◌≡◌, refl, Bool, false, Bool-cases, inl, inr, Option, none, some, ◌==◌, lookup,
  lookup-assign, ap, sym, subst,
}
use perpetua_core.Errors.{ok, >>=-ok, ok-injective}
use perpetua_core.Reducers.{CustomReducerFn}
use perpetua_core.Graph.{start_node, NodeFn, Edge, static}
use perpetua_core.Graph.Builder.{
  MiniGraph, mini_graph, add_node, add_edge, add_reducer, KindOrReducer, reducer_from, set_entry,
  compile, is_fan_out,
}

-- The builders that the methods make, in any order.
pub data Built {S W : Type 0} : MiniGraph S W → Type 0 where
  empty : (max_steps : ℕ) → Built (mini_graph max_steps)
  with_node :
      {g : MiniGraph S W} (name : String) (fn : NodeFn S W) → Built g → Built (add_node name fn g)
  with_edge :
      {g h : MiniGraph S W} (src : String) (dst : Edge S W)
      → Built g
      → add_edge src dst g ≡ ok h
      → Built h
  with_reducer :
      {g h : MiniGraph S W} (field : String) (given : KindOrReducer W)
      (fn : Option (CustomReducerFn W))
      → Built g
      → add_reducer field given fn g ≡ ok h
      → Built h
  with_entry : {g h : MiniGraph S W} (name : String) → Built g → set_entry name g ≡ ok h → Built h

abbrev pub opens_region : {S W : Type 0} → Option (Edge S W) → Bool
opens_region none = false
opens_region (some edge) = is_fan_out edge

add_edge-start :
    {S W : Type 0} (g h : MiniGraph S W) (src : String) (dst : Edge S W)
    → opens_region (lookup start_node g.edges) ≡ false
    → add_edge src dst g ≡ ok h
    → opens_region (lookup start_node h.edges) ≡ false
unfolding add_edge
add_edge-start g h src dst closed e = elim (Bool-cases (src == start_node)) [
  | inl f ↦ elim (Bool-cases (is_fan_out dst)) [
    | inl region ↦ cc (rw (add_edge, region, f) at e)
    | inr plain ↦
        subst (λ k. opens_region (lookup start_node k.edges) ≡ false)
          (ok-injective (rw (add_edge, plain) at e)) (rw (lookup-assign, f) plain)
  ]
  | inr f ↦ elim (Bool-cases (is_fan_out dst)) [
    | inl region ↦
        subst (λ k. opens_region (lookup start_node k.edges) ≡ false)
          (ok-injective (rw (add_edge, region, f) at e)) (rw (lookup-assign, f) closed)
    | inr plain ↦
        subst (λ k. opens_region (lookup start_node k.edges) ≡ false)
          (ok-injective (rw (add_edge, plain) at e)) (rw (lookup-assign, f) closed)
  ]
]

add_reducer-edges :
    {S W : Type 0} (g h : MiniGraph S W) (field : String) (given : KindOrReducer W)
    (fn : Option (CustomReducerFn W))
    → add_reducer field given fn g ≡ ok h
    → g.edges ≡ h.edges
unfolding add_reducer
add_reducer-edges g h field given fn e =
    let (reducer, built, made) = >>=-ok (reducer_from given fn) e in
    ap (λ k. k.edges) (ok-injective built)

-- Whatever methods build a graph, in whatever order, its compiled snapshot has no region at the start:
-- the scheduler's first edge is a name or a router.
pub compile-start :
    {S W : Type 0} (g : MiniGraph S W)
    → Built g
    → opens_region (lookup start_node (compile g).edges) ≡ false
unfolding compile mini_graph add_node set_entry lookup
compile-start _ (empty max_steps) = refl
compile-start _ (with_node {g} name fn b) = compile-start g b
compile-start _ (with_edge {g} {h} src dst b e) = add_edge-start g h src dst (compile-start g b) e
compile-start _ (with_reducer {g} {h} field given fn b e) =
    rw (sym (add_reducer-edges g h field given fn e)) (compile-start g b)
compile-start _ (with_entry {g} {h} name b e) =
    add_edge-start g h start_node (static name) (compile-start g b) e
