-- ===== src/Signal/Histories.antt =====
-- After any calls, no read of a memo is stale, and no effect that is out of date is left out.
use krab_pub.Common.{
  ℕ, ◌<◌, ◌≤◌, ◌≡◌, ◌∙◌, sym, refl, true, List, [], ◌∷◌, none, some, length, get_elem?,
  get_elem?-lt, arith,
}
use krab_pub.Signal.{effect, Reads, Graph, get_memo, runs_again, compute_reads, value_of}
use krab_pub.Signal.Calls.{
  SignalCall, runs_effect, calls, never_due, IsBound, calls-cons, never_due-cons,
}
use krab_pub.Signal.Steps.{IsIdle, call-Continues, runs_again-reached, Grows-IsIdle}
use krab_pub.Signal.Fresh.{Fresh, Grows}
use krab_pub.Signal.Tracking.{IsBelow, IsCurrent}
use krab_pub.Signal.Computing.{compute_reads-Fresh}
use krab_pub.Signal.Memo.{get_memo-Readable}
use krab_pub.Signal.Reference.{
  evaluate, memo_value, get_memo-memo_value, evaluate-current, IsBelow-le,
}

module _ {V : Type 0} where
  -- Every program comes back, and leaves nothing served that is out of date.
  abbrev Survives : List (SignalCall V) → Graph V → Type 0
  Survives cs g = (g' : Graph V) × (n : ℕ) × (m : ℕ) × (calls cs g ≡ some g') × IsIdle n m g'

  calls-IsIdle :
      (cs : List (SignalCall V)) (n m : ℕ) (g : Graph V)
      → IsBound n m cs
      → IsIdle n m g
      → Survives cs g
  unfolding calls
  calls-IsIdle [] n m g b h = (g, n, m, refl, h)
  calls-IsIdle (c ∷ cs) n m g b h =
      let (n', m', ln, lm, b', (g1, e1, h1, keeps)) = call-Continues c cs n m g b h in
      let (g', k, l, e, h') = calls-IsIdle cs n' m' g1 b' h1 in
      (g', k, l, calls-cons c cs g g1 e1 ∙ e, h')

  abbrev pub empty_graph : Graph V
  empty_graph = record { signals = []; memos = []; effects = [] }

  IsIdle-empty_graph : IsIdle 0 0 empty_graph
  IsIdle-empty_graph = record {
    current = record {
      ordered = λ m st e. absurd (ground arith);
      valued = λ m st e n. absurd (ground arith);
      fresh = λ m st e d k n. absurd (ground arith);
    };
    quiet = λ m st l e. absurd (ground arith);
    signal_count = refl;
    memo_count = refl;
  }

  -- Any calls on handles that exist come back without a panic from an empty graph on. A read of any
  -- memo then gives the value that its closure gives on the signals' present values, computed with
  -- no cache, or the last value of the memo if it is disposed: no read is stale.
  pub calls-get_memo :
      (cs : List (SignalCall V))
      → IsBound 0 0 cs
      → (g : Graph V) × (calls cs empty_graph ≡ some g)
        × ((m : ℕ)
            → m < length g.memos
            → (g' : Graph V) × (v : V) × (get_memo (length g.memos) none m g ≡ value_of g' v)
              × (memo_value (length g.memos) g m ≡ some v))
  calls-get_memo cs b =
      let (g, n, m, e, h) = calls-IsIdle cs 0 0 empty_graph b IsIdle-empty_graph in
      (
        g,
        e,
        λ j l.
            let (g', v, r, val, grown, c) =
              get_memo-memo_value none j g l tt h.current
                (λ k st lk ek. h.quiet k st (get_elem?-lt g.memos k st ek) ek) in
            (g', v, r, val),
      )

  -- The graph after calls that never made the effect due.
  abbrev IsKept : ℕ → ℕ → ℕ → Reads V → V → Graph V → Type 0
  IsKept n m e t w g =
      Fresh g (effect e) t w × IsCurrent g × (n ≤ length g.signals) × (m ≤ length g.memos)

  calls-IsKept :
      (cs : List (SignalCall V)) (n m e : ℕ) (t : Reads V) (w : V) (g g' : Graph V)
      → IsBound n m cs
      → IsIdle n m g
      → never_due e cs g ≡ true
      → calls cs g ≡ some g'
      → Fresh g (effect e) t w
      → IsKept n m e t w g'
  unfolding calls
  calls-IsKept [] n m e t w g g' b h due r f =
      let same : g ≡ g' = ground arith in
      rw (sym same) (f, h.current, omega (arith, h.signal_count), omega (arith, h.memo_count))
  calls-IsKept (c ∷ cs) n m e t w g g' b h due r f =
      let (n', m', ln, lm, b', (g1, e1, h1, keeps)) = call-Continues c cs n m g b h in
      let (a, unqueued, due') = never_due-cons e c cs g g1 e1 due in
      let (f', c', ln', lm') =
        calls-IsKept cs n' m' e t w g1 g' b' h1 due' (sym (calls-cons c cs g g1 e1) ∙ r)
          (keeps e t w a unqueued f) in
      (f', c', omega (arith, ln, ln'), omega (arith, lm, lm'))

  -- A graph with its own counts.
  own_counts : (n m : ℕ) (g : Graph V) → IsIdle n m g → IsIdle (length g.signals) (length g.memos) g
  own_counts n m g h = record {
    current = h.current;
    quiet = h.quiet;
    signal_count = refl;
    memo_count = refl;
  }

  after_calls :
      (cs : List (SignalCall V)) (g : Graph V)
      → IsBound 0 0 cs
      → calls cs empty_graph ≡ some g
      → IsIdle (length g.signals) (length g.memos) g
  after_calls cs g b r =
      let (g', n, m, e, h) = calls-IsIdle cs 0 0 empty_graph b IsIdle-empty_graph in
      let same : g' ≡ g = ground arith in rw (sym same) (own_counts n m g' h)

  runs_effect-Fresh :
      (n m e : ℕ) (t : Reads V) (w : V) (g g1 : Graph V)
      → IsBelow n m t
      → IsIdle n m g
      → runs_again (get_elem? g.effects e) ≡ true
      → compute_reads (get_memo (length g.memos)) (effect e) t g ≡ value_of g1 w
      → IsIdle n m g1 × Fresh g1 (effect e) t w
  runs_effect-Fresh n m e t w g g1 b h live r = ending (
      compute_reads-Fresh (get_memo (length g.memos)) (length g.memos) (effect e) t g
        (get_memo-Readable (length g.memos)) (rw (h.signal_count, h.memo_count) b) (omega arith)
        (runs_again-reached g e live) h.current h.quiet)
    where
      ending :
          ((g' : Graph V) × (v : V) × (compute_reads (get_memo (length g.memos)) (effect e) t g
              ≡ value_of g' v)
            × Grows g g'
            × IsCurrent g'
            × Fresh g' (effect e) t v)
          → IsIdle n m g1 × Fresh g1 (effect e) t w
      ending (g', v, r', grown, c, f) =
          let same : g' ≡ g1 = ground arith in
          let result : v ≡ w = ground arith in
          rw (sym same, sym result)
            (Grows-IsIdle n m g g' grown c h.quiet h.signal_count h.memo_count, f)

  -- When an effect has run after any calls on handles that exist, and no later call made it due while
  -- it was neither disposed nor dropped, then what it read gives its last result still, computed on
  -- the final signals with no cache: no update of an effect is missed.
  pub never_due-evaluate :
      (before after : List (SignalCall V)) (e : ℕ) (t : Reads V) (w : V) (g0 g1 g2 : Graph V)
      → IsBound 0 0 before
      → calls before empty_graph ≡ some g0
      → IsBound (length g0.signals) (length g0.memos) (runs_effect e t ∷ after)
      → runs_again (get_elem? g0.effects e) ≡ true
      → compute_reads (get_memo (length g0.memos)) (effect e) t g0 ≡ value_of g1 w
      → calls after g1 ≡ some g2
      → never_due e after g1 ≡ true
      → evaluate (memo_value (length g2.memos) g2) g2 t ≡ some w
  never_due-evaluate before after e t w g0 g1 g2 b r0 b' live run r2 due =
      let (h1, f1) =
        runs_effect-Fresh (length g0.signals) (length g0.memos) e t w g0 g1 b'.0
          (after_calls before g0 b r0) live run in
      let (f2, c2, ln, lm) =
        calls-IsKept after (length g0.signals) (length g0.memos) e t w g1 g2 b'.1 h1 due r2 f1 in
      evaluate-current g2 (effect e) t w c2
        (IsBelow-le (length g0.signals) (length g2.signals) (length g0.memos) (length g2.memos) t ln
          lm b'.0)
        f2
