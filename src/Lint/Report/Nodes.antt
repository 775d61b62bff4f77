-- ===== src/Lint/Report/Nodes.antt =====
-- What the lint of the nodes excludes.
use perpetua_core.Prelude.{
  String, ◌≡◌, refl, sym, inl, inr, true, false, Bool-cases, List, [], ◌∷◌, ◌==◌, map, contains,
  any, arith, eq_refl, subst, eq_iff,
}
use perpetua_core.Spec.Records.{NodeSpec}
use perpetua_core.Lint.Issue.{has_error}
use perpetua_core.Lint.Elements.{lint_nodes, lint_node, is_blank}
use perpetua_core.Lint.Report.Edges.{clean_parts}

new_name :
    (seen : List String) (n : NodeSpec)
    → has_error (lint_node seen n) ≡ false
    → contains n.name seen ≡ false
unfolding lint_node
new_name seen n h = ground arith

name_of :
    (seen : List String) (n : NodeSpec)
    → has_error (lint_node seen n) ≡ false
    → is_blank n.name ≡ false
unfolding lint_node
name_of seen n h = ground arith

-- The names after a node differ from those before it.
lint_nodes-fresh :
    (seen : List String) (ns : List NodeSpec) (name : String)
    → has_error (lint_nodes seen ns) ≡ false
    → contains name seen ≡ true
    → contains name (map (λ n. n.name) ns) ≡ false
unfolding lint_nodes lint_node
lint_nodes-fresh seen [] name h k = refl
lint_nodes-fresh seen (n ∷ ns) name h k =
    let parts = clean_parts (lint_node seen n) (lint_nodes (n.name ∷ seen) ns) h in
    elim (Bool-cases (n.name == name)) [
      | inl e ↦
          let there : contains n.name seen ≡ true =
            subst (λ x. contains x seen ≡ true) (sym ((eq_iff n.name name).0 e)) k in
          let new = new_name seen n parts.0 in ground arith
      | inr e ↦ rw (e, lint_nodes-fresh (n.name ∷ seen) ns name parts.1 (rw (e, k) refl)) refl
    ]

-- No name stands twice.
abbrev pub AreDistinct : List String → Type 0
AreDistinct [] = Unit
AreDistinct (x ∷ xs) = (contains x xs ≡ false) × AreDistinct xs

pub lint_nodes-AreDistinct :
    (seen : List String) (ns : List NodeSpec)
    → has_error (lint_nodes seen ns) ≡ false
    → AreDistinct (map (λ n. n.name) ns)
unfolding lint_nodes
lint_nodes-AreDistinct seen [] h = tt
lint_nodes-AreDistinct seen (n ∷ ns) h =
    let parts = clean_parts (lint_node seen n) (lint_nodes (n.name ∷ seen) ns) h in
    (
      lint_nodes-fresh (n.name ∷ seen) ns n.name parts.1 (rw (eq_refl n.name) refl),
      lint_nodes-AreDistinct (n.name ∷ seen) ns parts.1,
    )

-- No name is blank.
pub lint_nodes-are_named :
    (seen : List String) (ns : List NodeSpec)
    → has_error (lint_nodes seen ns) ≡ false
    → any (λ n. is_blank n.name) ns ≡ false
unfolding lint_nodes
lint_nodes-are_named seen [] h = refl
lint_nodes-are_named seen (n ∷ ns) h =
    let parts = clean_parts (lint_node seen n) (lint_nodes (n.name ∷ seen) ns) h in
    rw (name_of seen n parts.0, lint_nodes-are_named (n.name ∷ seen) ns parts.1) refl
