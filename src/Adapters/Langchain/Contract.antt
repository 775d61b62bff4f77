-- ===== src/Adapters/Langchain/Contract.antt =====
-- `abatch` of the adapter, over any order of the event loop.
use perpetua_core.Prelude.{ℕ, zero, suc, ◌≡◌, Option, none, some, List, arith, subst}
use perpetua_core.Value.{Value, null, boolean, int, pos, negsuc, text, list, tuple, dict, atom}
use perpetua_core.Errors.{ok, ok-injective}
use perpetua_core.Adapters.Langchain.{
  Input, LangChainRunnableAdapter, checked_bound, ainvoke, abatch,
}
use perpetua_core.Adapters.Langchain.Gathered.{IsPositive, Answered, gathered-Answered}

checked_bound-IsPositive :
    (v : Option Value) (bound : Option ℕ) → checked_bound v ≡ ok bound → IsPositive bound
unfolding checked_bound
checked_bound-IsPositive none bound h = subst IsPositive (ok-injective h) tt
checked_bound-IsPositive (some null) bound h = subst IsPositive (ok-injective h) tt
checked_bound-IsPositive (some (int (pos (suc n)))) bound h =
    subst IsPositive (ok-injective h) (omega arith)
checked_bound-IsPositive (some (int (pos zero))) bound h = cc h
checked_bound-IsPositive (some (int (negsuc n))) bound h = cc h
checked_bound-IsPositive (some (boolean b)) bound h = cc h
checked_bound-IsPositive (some (text s)) bound h = cc h
checked_bound-IsPositive (some (list xs)) bound h = cc h
checked_bound-IsPositive (some (tuple xs)) bound h = cc h
checked_bound-IsPositive (some (dict d)) bound h = cc h
checked_bound-IsPositive (some (atom t i)) bound h = cc h

module _ {S W : Type 0} (adapter : LangChainRunnableAdapter S W) (schedule : List ℕ)
    (inputs : List (Input S × W)) (max_concurrency : Option Value) where
  -- With a bound that is taken (none, null, or a positive integer), `abatch` ends whatever order the
  -- event loop takes: it returns what `ainvoke` gives on each input, in the order of the inputs,
  -- or it raises an exception that `ainvoke` raises on one of them.
  pub abatch_contract :
      (bound : Option ℕ)
      → checked_bound max_concurrency ≡ ok bound
      → Answered
          (λ item. (ainvoke adapter item.0 item.1).0)
          inputs
          (abatch adapter schedule inputs max_concurrency)
  unfolding abatch
  abatch_contract bound taken = rw taken (
      gathered-Answered (λ item. (ainvoke adapter item.0 item.1).0) schedule bound inputs
        (checked_bound-IsPositive max_concurrency bound taken))
