-- ===== src/Scheduler/Trace.antt =====
-- What the observations of a run look like, and how the scheduler's primitives keep that.
pub mod Node
pub mod Region
pub mod Termination
pub mod Stops
pub mod Withheld
pub mod Unpublished
use perpetua_core.Prelude.{
  ℕ, zero, suc, ◌+◌, ◌≤◌, String, ◌≡◌, refl, Bool, true, false, Option, none, some, List, [], ◌∷◌,
  ◌++◌, arith, All, All-snoc, last_write, lookup-update, if◌then◌else◌,
}
use perpetua_core.Value.{Value, text}
use perpetua_core.Errors.{Exception, Result, ok, err}
use perpetua_core.Exec.{Exec, lift, captured, attempt, ◌>>=◌}
use perpetua_core.Exec.Triple.{Holds, Triple}
use perpetua_core.State.{StateModel, merge, get_attr-merge}
use perpetua_core.Graph.{EventKind, TerminalReason, GraphObservation, GraphEvent}
use perpetua_core.Scheduler.{Host, Invocation, Run, Scheduled, call, emit, emit_all}

abbrev pub is_end : EventKind → Bool
is_end EventKind.node_end = true
is_end _ = false

-- How many nodes the observations report as completed.
abbrev pub ends : {S : Type 0} → List (GraphObservation S) → ℕ
ends [] = 0
ends (o ∷ os) = (if is_end o.event.kind then 1 else 0) + ends os

abbrev pub kind_of : TerminalReason → EventKind
kind_of TerminalReason.done = EventKind.done
kind_of TerminalReason.interrupted = EventKind.interrupt
kind_of TerminalReason.stopped = EventKind.stopped

abbrev pub status_of : TerminalReason → String
status_of TerminalReason.done = "done"
status_of TerminalReason.interrupted = "interrupted"
status_of TerminalReason.stopped = "stopped"

module _ {S : Type 0} (model : StateModel S) (max : ℕ) where
  -- An observation that ends nothing, within the step budget.
  pub record IsQuiet (o : GraphObservation S) : Type 0 where
    pub not_terminal : o.event.terminal_reason ≡ none
    pub in_budget : o.event.steps ≤ max

  -- A terminal observation: its kind and its state's status are those of its reason.
  pub record IsTerminal (o : GraphObservation S) : Type 0 where
    pub reason : TerminalReason
    pub reported : o.event.terminal_reason ≡ some reason
    pub kind_fits : o.event.kind ≡ kind_of reason
    pub status_fits : model.get_attr o.state "status" ≡ some (text (status_of reason))
    pub in_budget : o.event.steps ≤ max

  -- A run under way: nothing has ended it, and at most `n` nodes are completed.
  pub record Progress (n : ℕ) (trace : List (GraphObservation S)) : Type 0 where
    pub quiet : All IsQuiet trace
    pub completed : ends trace ≤ n
    pub bounded : n ≤ max

  -- A run that has ended: one terminal observation, and it is the last.
  pub record Closed (trace : List (GraphObservation S)) : Type 0 where
    pub before : List (GraphObservation S)
    pub last : GraphObservation S
    pub split : trace ≡ before ++ last ∷ []
    pub progress : Progress max before
    pub ending : IsTerminal last

ends-snoc :
    {S : Type 0} (os : List (GraphObservation S)) (o : GraphObservation S)
    → ends (os ++ o ∷ []) ≡ ends os + (if is_end o.event.kind then 1 else 0)
ends-snoc [] o = omega arith
ends-snoc (p ∷ os) o = omega (arith, ends-snoc os o)

module _ {S W : Type 0} (run : Invocation S W) where
  abbrev pub At : ℕ → Run S W → Type 0
  At n r = Progress run.model run.graph.max_steps n r.trace

  abbrev pub Ended : Run S W → Type 0
  Ended r = Closed run.model run.graph.max_steps r.trace

  -- An exception leaves a trace with no terminal observation.
  abbrev pub Raised : Exception → Run S W → Type 0
  Raised e r = Progress run.model run.graph.max_steps run.graph.max_steps r.trace

  pub At-Raised : {n : ℕ} (e : Exception) (r : Run S W) → At n r → Raised e r
  At-Raised e r p = record { quiet = p.quiet; completed = omega arith; bounded = omega arith }

  call-Holds :
      {A : Type 0} {n : ℕ} (Q : A → Type 0) (x : Result A) (w : W)
      (trace : List (GraphObservation S))
      → Progress run.model run.graph.max_steps n trace
      → Holds (λ a (w' : W). Q a) (λ e w'. Unit) (x, w)
      → Holds (λ a r. Q a × At n r) Raised (x, record { world = w; trace = trace })
  call-Holds Q (ok a) w trace p q = (q, p)
  call-Holds Q (err e) w trace p q = At-Raised e (record { world = w; trace = trace }) p

  -- Outside code adds no observation.
  pub call-At :
      {A : Type 0} {n : ℕ} {Q : A → Type 0} (m : Exec W A)
      → Triple (λ w. Unit) m (λ a w. Q a) (λ e w. Unit)
      → Triple (At n) (call m) (λ a r. Q a × At n r) Raised
  unfolding call
  call-At {Q} m t = record {
    at = λ r p. let (x, w) = m r.world in call-Holds Q x w r.trace p (t.at r.world tt);
  }

  attempt_call-Holds :
      {A : Type 0} {n : ℕ} (x : Result A) (w : W) (trace : List (GraphObservation S))
      → Progress run.model run.graph.max_steps n trace
      → Holds (λ a r. At n r) Raised (captured (x, record { world = w; trace = trace }))
  attempt_call-Holds (ok a) w trace p = p
  attempt_call-Holds (err e) w trace p = p

  pub attempt-call-At :
      {A : Type 0} {n : ℕ} (m : Exec W A) → Triple (At n) (attempt (call m)) (λ a r. At n r) Raised
  unfolding call attempt
  attempt-call-At m = record {
    at = λ r p. let (x, w) = m r.world in attempt_call-Holds x w r.trace p;
  }

  lift-Holds :
      {A : Type 0} {n : ℕ} (x : Result A) (r : Run S W)
      → At n r
      → Holds (λ a r. (x ≡ ok a) × At n r) Raised (x, r)
  lift-Holds (ok a) r p = (refl, p)
  lift-Holds (err e) r p = At-Raised e r p

  pub lift-At :
      {A : Type 0} {n : ℕ} (x : Result A)
      → Triple (At n) (lift x) (λ a r. (x ≡ ok a) × At n r) Raised
  lift-At x = record { at = λ r p. lift-Holds x r p }

  Progress-snoc :
      {n k : ℕ} {trace : List (GraphObservation S)} (o : GraphObservation S)
      → IsQuiet run.model run.graph.max_steps o
      → n + (if is_end o.event.kind then 1 else 0) ≤ k
      → k ≤ run.graph.max_steps
      → Progress run.model run.graph.max_steps n trace
      → Progress run.model run.graph.max_steps k (trace ++ o ∷ [])
  Progress-snoc {trace} o q fits bound p = record {
    quiet = All-snoc (IsQuiet run.model run.graph.max_steps) o trace q p.quiet;
    completed = rw (ends-snoc trace o) (omega arith);
    bounded = bound;
  }

  -- An observation that ends nothing.
  pub emit-At :
      {n k : ℕ} (o : GraphObservation S)
      → IsQuiet run.model run.graph.max_steps o
      → n + (if is_end o.event.kind then 1 else 0) ≤ k
      → k ≤ run.graph.max_steps
      → Triple (At n) (emit run.host o) (λ u r. At k r) Raised
  unfolding emit
  emit-At o q fits bound = record { at = λ r p. Progress-snoc o q fits bound p }

  -- The terminal observation.
  pub emit-Ended :
      {n : ℕ} (o : GraphObservation S)
      → IsTerminal run.model run.graph.max_steps o
      → Triple (At n) (emit run.host o) (λ u r. Ended r) Raised
  unfolding emit
  emit-Ended o t = record {
    at = λ r p. record {
      before = r.trace;
      last = o;
      split = refl;
      progress = At-Raised Exception.type_error r p;
      ending = t;
    };
  }
