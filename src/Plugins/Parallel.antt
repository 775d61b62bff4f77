-- ===== src/Plugins/Parallel.antt =====
-- graph/plugins/parallel.py: `parallel_dispatch`, which runs nodes and merges their deltas. How
-- `asyncio.gather` interleaves the branches is a parameter.
use perpetua_core.Prelude.{
  String, Option, none, some, List, [], ◌∷◌, ◌==◌, if◌then◌else◌, Dict, lookup, assign, update, map,
}
use perpetua_core.Value.{Value, dict, mapping, is_truthy, to_fields, of_fields}
use perpetua_core.Exec.{Exec}
use perpetua_core.Errors.{Result, ok, err, attribute_error, ◌>>=◌}
use perpetua_core.Scheduler.States.{or_type_error}

-- `merged.get("scratchpad") or {}`, as `{**...}` takes it
unfoldable pub earlier_scratchpad : Option Value → Result (Dict Value)
earlier_scratchpad none = ok []
earlier_scratchpad (some v) = if is_truthy v then or_type_error (mapping v) else ok []

-- `merged["scratchpad"] = {**(merged.get("scratchpad") or {}), **v}`
unfoldable pub merge_scratchpad : Dict Value → Dict Value → Result (Dict Value)
merge_scratchpad v merged = do
  before ← earlier_scratchpad (lookup "scratchpad" merged)
  ok (assign "scratchpad" (dict (to_fields (update before v))) merged)

-- One entry of a delta.
unfoldable pub merge_entry : String → Value → Dict Value → Result (Dict Value)
merge_entry k (dict d) merged =
    if k == "scratchpad"
    then merge_scratchpad (of_fields d) merged
    else ok (assign k (dict d) merged)
merge_entry k v merged = ok (assign k v merged)

unfoldable pub merge_delta : Dict Value → Dict Value → Result (Dict Value)
merge_delta [] merged = ok merged
merge_delta ((k, v) ∷ d) merged = do next ← merge_entry k v merged; merge_delta d next

-- `d.items()`: an object that is no dict has none.
abbrev pub items_of : Value → Result (Dict Value)
items_of (dict d) = ok (of_fields d)
items_of _ = err attribute_error

-- `if not d: continue`: whatever is falsy is passed over, None included.
unfoldable pub merge_result : Value → Dict Value → Result (Dict Value)
merge_result d merged =
    if is_truthy d then items_of d >>= (λ items. merge_delta items merged) else ok merged

-- The results of the branches, in the order of the branches.
unfoldable pub merge_deltas : List Value → Dict Value → Result (Dict Value)
merge_deltas [] merged = ok merged
merge_deltas (d ∷ rest) merged = do next ← merge_result d merged; merge_deltas rest next

-- `asyncio.gather`, which runs the branches at once and gives their results in their order.
abbrev pub Gather : Type 0 → Type 0
Gather W = List (Exec W Value) → Exec W (List Value)

-- `parallel_dispatch`
unfoldable pub parallel_dispatch :
    {S W : Type 0} → Gather W → Dict (S → Exec W Value) → S → Exec W (Dict Value)
parallel_dispatch gather branches s w =
    let (results, w') = gather (map (λ branch. branch.1 s) branches) w in
    (results >>= λ deltas. merge_deltas deltas [], w')
