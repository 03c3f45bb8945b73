-- ===== src/Signal/Calls.antt =====
-- A program over the signals: the calls that it makes, in their order.
use krab_pub.Common.{
  ℕ, suc, ◌<◌, ◌≡◌, ◌∙◌, sym, refl, Bool, true, false, not, ◌&&◌, List, [], ◌∷◌, ◌++◌, Option, none,
  some, if◌then◌else◌, length, get_elem?, set, arith,
}
use krab_pub.Signal.{
  effect, Reads, Graph, EffectFlags, get_memo, runs_again, create_signal, create_memo, dispose_memo,
  set_signal, compute_reads, Reading, value_of, panicked, unfinished,
}
use krab_pub.Signal.Tracking.{IsBelow}
use krab_pub.Signal.Marking.{queued}

-- `runs_effect` is one run of the body of an effect, as far as it reads.
pub data SignalCall (V : Type 0) : Type 0 where
  creates_signal : V → SignalCall V
  creates_memo : Reads V → SignalCall V
  creates_effect : SignalCall V
  writes : ℕ → V → SignalCall V
  reads_memo : ℕ → SignalCall V
  runs_effect : ℕ → Reads V → SignalCall V
  disposes_memo : ℕ → SignalCall V
  sets_effect : ℕ → EffectFlags → SignalCall V

all_of : (a b c : Bool) → (a && (not b && c)) ≡ true → (a ≡ true) × (b ≡ false) × (c ≡ true)
all_of a b c h = (ground arith, ground arith, ground arith)

module _ {V : Type 0} where
  abbrev pub graph_of : Reading V → Option (Graph V)
  graph_of (value_of g v) = some g
  graph_of (panicked g) = none
  graph_of unfinished = none

  abbrev pub written_graph : Option (Graph V × List ℕ) → Option (Graph V)
  written_graph none = none
  written_graph (some (g, q)) = some g

  -- The graph after a call, if it comes back without a panic.
  unfoldable pub call : SignalCall V → Graph V → Option (Graph V)
  unfolding create_signal create_memo set_signal get_memo compute_reads dispose_memo
  call (creates_signal v) g = some (create_signal v g)
  call (creates_memo t) g = graph_of (create_memo t g)
  call creates_effect g =
      some (record g { effects = g.effects ++ record { disposed = false; dropped = false } ∷ [] })
  call (writes i v) g = written_graph (set_signal i v g)
  call (reads_memo m) g = graph_of (get_memo (length g.memos) none m g)
  call (runs_effect e t) g =
      if runs_again (get_elem? g.effects e)
      then graph_of (compute_reads (get_memo (length g.memos)) (effect e) t g)
      else some g
  call (disposes_memo m) g = some (dispose_memo m g)
  call (sets_effect e flags) g = some (record g { effects = set g.effects e flags })

  unfoldable pub calls : List (SignalCall V) → Graph V → Option (Graph V)
  unfolding call
  calls [] g = some g
  calls (c ∷ cs) g = elim (call c g) [ none ↦ none | some g' ↦ calls cs g' ]

  -- The effects that a call makes due.
  unfoldable pub queue_of : SignalCall V → Graph V → List ℕ
  unfolding set_signal
  queue_of (writes i v) g = elim (set_signal i v g) [ none ↦ [] | some r ↦ r.1 ]
  queue_of c g = []

  -- The effect is there all the while, and no call makes it due.
  unfoldable pub never_due : ℕ → List (SignalCall V) → Graph V → Bool
  unfolding call queue_of
  never_due e [] g = true
  never_due e (c ∷ cs) g =
      let rest = elim (call c g) as (λ _. Bool) [ none ↦ true | some g' ↦ never_due e cs g' ] in
      runs_again (get_elem? g.effects e) && (not (queued e (queue_of c g)) && rest)

  -- A call uses handles that exist: those of so many signals and memos made before it.
  abbrev pub IsBound : ℕ → ℕ → List (SignalCall V) → Type 0
  IsBound signals memos [] = Unit {0}
  IsBound signals memos (creates_signal v ∷ cs) = IsBound (suc signals) memos cs
  IsBound signals memos (creates_memo t ∷ cs) =
      IsBelow signals memos t × IsBound signals (suc memos) cs
  IsBound signals memos (creates_effect ∷ cs) = IsBound signals memos cs
  IsBound signals memos (writes i v ∷ cs) = (i < signals) × IsBound signals memos cs
  IsBound signals memos (reads_memo m ∷ cs) = (m < memos) × IsBound signals memos cs
  IsBound signals memos (runs_effect e t ∷ cs) = IsBelow signals memos t × IsBound signals memos cs
  IsBound signals memos (disposes_memo m ∷ cs) = IsBound signals memos cs
  IsBound signals memos (sets_effect e flags ∷ cs) = IsBound signals memos cs

  pub calls-cons :
      (c : SignalCall V) (cs : List (SignalCall V)) (g g' : Graph V)
      → call c g ≡ some g'
      → calls (c ∷ cs) g ≡ calls cs g'
  unfolding calls
  calls-cons c cs g g' e = rw (e, calls) refl

  pub never_due-cons :
      (e : ℕ) (c : SignalCall V) (cs : List (SignalCall V)) (g g' : Graph V)
      → call c g ≡ some g'
      → never_due e (c ∷ cs) g ≡ true
      → (runs_again (get_elem? g.effects e) ≡ true)
        × (queued e (queue_of c g) ≡ false)
        × (never_due e cs g' ≡ true)
  unfolding never_due
  never_due-cons e c cs g g' r due =
      all_of (runs_again (get_elem? g.effects e)) (queued e (queue_of c g)) (never_due e cs g')
        (sym unfold_due ∙ due)
    where
      unfold_due : never_due e (c ∷ cs) g ≡ (
          runs_again (get_elem? g.effects e)
          && (not (queued e (queue_of c g)) && never_due e cs g'))
      unfold_due = rw (r, never_due) refl
