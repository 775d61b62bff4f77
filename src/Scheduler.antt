-- ===== src/Scheduler.antt =====
-- graph/engine.py: what the one scheduler takes from outside, and its monad.
pub mod States
pub mod Boundary
pub mod Settle
pub mod Admit
pub mod Fold
pub mod Region
pub mod Loop
pub mod Trace
use perpetua_core.Prelude.{ℕ, String, Option, List, [], ◌∷◌, ◌++◌}
use perpetua_core.Errors.{Result}
use perpetua_core.Exec.{Exec, pure, ◌>>=◌, ◌>>◌}
use perpetua_core.State.{StateModel}
use perpetua_core.Gate.{Gate}
use perpetua_core.Graph.{Graph, GraphObservation, NodeDelta}

-- The Python runtime and the consumer of the observations.
pub record Host (S W : Type 0) : Type 0 where
  -- SHA-256, as a hex digest, of the compact JSON text with sorted keys
  pub digest : NodeDelta → String
  -- `secrets.token_urlsafe(18)`
  pub token : W → String × W
  -- what the consumer does with an observation before it asks for the next one
  pub consume : GraphObservation S → W → W
  -- the order in which the event loop resumes the tasks of a region, by their positions; the tasks
  -- that it leaves unfinished are finished in their order
  pub schedule : List String → W → List ℕ

-- One invocation of a compiled graph: `gate` is none for an ungated run.
pub record Invocation (S W : Type 0) : Type 0 where
  pub model : StateModel S
  pub graph : Graph S W
  pub host : Host S W
  pub gate : Option (Gate W)

-- The world, and the observations yielded so far.
pub record Run (S W : Type 0) : Type 0 where
  pub world : W
  pub trace : List (GraphObservation S)

abbrev pub Scheduled : Type 0 → Type 0 → Type 0 → Type 0
Scheduled S W A = Exec (Run S W) A

module _ {S W : Type 0} where
  abbrev returned : {A : Type 0} → List (GraphObservation S) → Result A × W → Result A × Run S W
  returned trace (r, w) = (r, record { world = w; trace = trace })

  -- A call of outside code.
  unfoldable pub call : {A : Type 0} → Exec W A → Scheduled S W A
  call m r = returned r.trace (m r.world)

  -- `yield`: the consumer sees the observation, and may act before the scheduler goes on.
  unfoldable pub emit : Host S W → GraphObservation S → Scheduled S W Unit
  emit host o r =
      (Result.ok tt, record { world = host.consume o r.world; trace = r.trace ++ o ∷ [] })

  unfoldable pub emit_all : Host S W → List (GraphObservation S) → Scheduled S W Unit
  emit_all host [] = pure tt
  emit_all host (o ∷ os) = emit host o >> emit_all host os
