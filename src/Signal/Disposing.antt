-- ===== src/Signal/Disposing.antt =====
-- Disposing of a memo keeps what is up to date.
use krab_pub.Common.{
  ℕ, ◌≡◌, ◌∙◌, sym, ap, refl, true, false, none, some, inl, inr, ◌==◌, length, get_elem?, set,
  arith, get_elem?-set, get_elem?-lt, length-set, Bool-cases, Option-cases, is_some,
}
use krab_pub.Signal.{
  Subscriber, memo, Reads, done, read_signal, read_memo, MemoState, Graph, set_memo, dispose_memo,
}
use krab_pub.Signal.Fresh.{Fresh}
use krab_pub.Signal.Tracking.{IsCurrent}
use krab_pub.Signal.Creating.{IsAtRest}

module _ {V : Type 0} where
  abbrev retired : MemoState V → MemoState V
  retired st = record st { disposed = true }

  Fresh-retired :
      (s : Subscriber) (t : Reads V) (w : V) (g : Graph V) (m : ℕ) (st : MemoState V)
      → get_elem? g.memos m ≡ some st
      → Fresh g s t w
      → Fresh (set_memo g m (retired st)) s t w
  Fresh-retired s (done x) w g m st e f = f
  Fresh-retired s (read_signal i k) w g m st e (si, ei, sub, f) =
      (si, ei, sub, Fresh-retired s (k si.value) w g m st e f)
  Fresh-retired s (read_memo j k) w g m st e (sj, x, ej, val, settled, f) =
      elim (Bool-cases (m == j)) [
        | inl same ↦
            let p : st ≡ sj = ground arith in
            (
              retired st,
              x,
              get_elem?-set g.memos m j st (retired st) e ∙ rw same refl,
              ap (λ y. y.value) p ∙ val,
              inl refl,
              Fresh-retired s (k x) w g m st e f,
            )
        | inr other ↦ (
          sj,
          x,
          get_elem?-set g.memos m j st (retired st) e ∙ rw other ej,
          val,
          settled,
          Fresh-retired s (k x) w g m st e f,
        )
      ]

  dispose_memo-some :
      (m : ℕ) (g : Graph V) (st : MemoState V)
      → get_elem? g.memos m ≡ some st
      → dispose_memo m g ≡ set_memo g m (retired st)
  unfolding dispose_memo
  dispose_memo-some m g st e = rw (e, dispose_memo) refl

  dispose_memo-none : (m : ℕ) (g : Graph V) → get_elem? g.memos m ≡ none → dispose_memo m g ≡ g
  unfolding dispose_memo
  dispose_memo-none m g e = rw (e, dispose_memo) refl

  -- What the disposal of a memo leaves as it was, and that it keeps the invariant.
  abbrev Disposes : Graph V → Graph V → Type 0
  Disposes g g' =
      IsCurrent g' × IsAtRest g' × (g'.signals ≡ g.signals) × (length g'.memos ≡ length g.memos)

  pub dispose_memo-IsCurrent :
      (m : ℕ) (g : Graph V) → IsCurrent g → IsAtRest g → Disposes g (dispose_memo m g)
  dispose_memo-IsCurrent m g c q = elim (Option-cases (get_elem? g.memos m)) [
    | inl missing ↦ rw (dispose_memo-none m g missing) (c, q, refl, refl)
    | inr (st, e) ↦ rw (dispose_memo-some m g st e) (found st e)
  ]
    where
      found :
          (st : MemoState V)
          → get_elem? g.memos m ≡ some st
          → Disposes g (set_memo g m (retired st))
      found st e = (current, quiet, refl, length-set g.memos m (retired st))
        where
          -- The state before, of which the new one differs in the flag at most.
          before :
              (j : ℕ) (sj : MemoState V)
              → get_elem? (set g.memos m (retired st)) j ≡ some sj
              → (s0 : MemoState V) × (get_elem? g.memos j ≡ some s0)
                × (sj.compute ≡ s0.compute)
                × (sj.value ≡ s0.value)
                × (sj.computing ≡ s0.computing)
                × (sj.dirty ≡ s0.dirty)
                × (sj.disposed ≡ false → s0.disposed ≡ false)
          before j sj ej = elim (Bool-cases (m == j)) [
            | inl same ↦
                let p : retired st ≡ sj =
                  ground (arith, get_elem?-set g.memos m j st (retired st) e) in
                (
                  st,
                  ground arith,
                  sym (ap (λ y. y.compute) p),
                  sym (ap (λ y. y.value) p),
                  sym (ap (λ y. y.computing) p),
                  sym (ap (λ y. y.dirty) p),
                  λ d. absurd (ground (arith, ap (λ y. y.disposed) p)),
                )
            | inr other ↦ (
              sj,
              ground (arith, get_elem?-set g.memos m j st (retired st) e),
              refl,
              refl,
              refl,
              refl,
              λ d. d,
            )
          ]

          current : IsCurrent (set_memo g m (retired st))
          current = record {
            ordered = λ j sj ej.
                let (s0, e0, t, val, n, k, d) = before j sj ej in rw t (c.ordered j s0 e0);
            valued = λ j sj ej n'.
                let (s0, e0, t, val, n, k, d) = before j sj ej in
                ap is_some val ∙ c.valued j s0 e0 (sym n ∙ n');
            fresh = λ j sj ej d' k' n'.
                let (s0, e0, t, val, n, k, d) = before j sj ej in
                let (w, val0, f) = c.fresh j s0 e0 (d d') (sym k ∙ k') (sym n ∙ n') in
                (w, val ∙ val0, rw t (Fresh-retired (memo j) s0.compute w g m st e f));
          }

          quiet : IsAtRest (set_memo g m (retired st))
          quiet j sj l ej =
              let (s0, e0, t, val, n, k, d) = before j sj ej in
              n ∙ q j s0 (get_elem?-lt g.memos j s0 e0) e0

  pub dispose_memo-Fresh :
      (m : ℕ) (g : Graph V) (s : Subscriber) (t : Reads V) (w : V)
      → Fresh g s t w
      → Fresh (dispose_memo m g) s t w
  dispose_memo-Fresh m g s t w f = elim (Option-cases (get_elem? g.memos m)) [
    | inl missing ↦ rw (dispose_memo-none m g missing) f
    | inr (st, e) ↦ rw (dispose_memo-some m g st e) (Fresh-retired s t w g m st e f)
  ]
