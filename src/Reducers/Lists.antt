-- ===== src/Reducers/Lists.antt =====
-- `concat`, and `union` of lists.
use perpetua_core.Prelude.{String, ◌≡◌, ap, ◌∙◌, List, [], ◌∷◌, ◌++◌, append_assoc, append-nil, map}
use perpetua_core.Value.{Value, null, list, to_items, of_items-to_items}
use perpetua_core.Errors.{ok}
use perpetua_core.Reducers.{
  Contribution, concat, require_list, base_list, extend_all, concat_lists, reduce_field,
}

-- The contributions of branches that all write lists.
abbrev pub list_writes : List (String × List Value) → List Contribution
list_writes ws = map (λ w. (w.0, list (to_items w.1))) ws

abbrev pub flatten : List (String × List Value) → List Value
flatten [] = []
flatten (w ∷ ws) = w.1 ++ flatten ws

extend_all-lists :
    (result : List Value) (ws : List (String × List Value))
    → extend_all result (list_writes ws) ≡ ok (result ++ flatten ws)
unfolding extend_all require_list
extend_all-lists result [] = rw append-nil
extend_all-lists result ((name, xs) ∷ ws) =
    rw of_items-to_items
      (extend_all-lists (result ++ xs) ws ∙ ap ok (append_assoc result xs (flatten ws)))

-- `concat` on list writes appends the branches' items to the base in the order of the branches,
-- a missing base counting as empty.
pub concat_contract :
    {W : Type 0} (field : String) (base : List Value) (ws : List (String × List Value)) (w : W)
    → (reduce_field field concat (list (to_items base)) (list_writes ws) w
        ≡ (ok (list (to_items (base ++ flatten ws))), w))
      × (reduce_field field concat null (list_writes ws) w ≡ (ok (list (to_items (flatten ws))), w))
unfolding reduce_field concat_lists base_list require_list
concat_contract field base ws w = (rw (of_items-to_items, extend_all-lists), rw extend_all-lists)
