-- ===== src/Signal/Recompute.antt =====
-- Reading a memo, which recomputes it if it is dirty.
use krab_pub.Common.{
  ℕ, ◌≤◌, ◌≡◌, ◌∙◌, sym, ap, refl, true, false, Option, some, ◌⊎◌, inl, inr, ◌==◌, get_elem?, set,
  arith, get_elem?-set, get_elem?-lt, length-set, Bool-cases, is_some,
}
use krab_pub.Signal.{
  Subscriber, memo, Reads, MemoState, Graph, set_memo, Reading, value_of, compute_reads,
  finish_memo, finish_compute, recompute_now,
}
use krab_pub.Signal.Fresh.{Fresh, MemoGrows, Grows, Fresh-set_memo}
use krab_pub.Signal.Tracking.{IsCurrent, IsQuiet}
use krab_pub.Signal.Computing.{Readable, compute_reads-Fresh}

module _ {V : Type 0} where
  -- A memo as its computation begins.
  abbrev pub started : MemoState V → MemoState V
  started st = record st { dirty = false; computing = true }

  abbrev finished : V → MemoState V → MemoState V
  finished v st = record st { value = some v; computing = false }

  get_elem?-set_memo :
      (g : Graph V) (m : ℕ) (st st' : MemoState V)
      → get_elem? g.memos m ≡ some st
      → get_elem? (set_memo g m st').memos m ≡ some st'
  get_elem?-set_memo g m st st' e = ground (arith, get_elem?-set g.memos m m st st' e)

  finished-Grows :
      (m : ℕ) (st st2 : MemoState V) (v : V) (g g2 : Graph V)
      → get_elem? g.memos m ≡ some st
      → st.disposed ≡ false
      → st.dirty ≡ true
      → st.computing ≡ false
      → Grows (set_memo g m (started st)) g2
      → get_elem? g2.memos m ≡ some st2
      → MemoGrows (set_memo g m (started st)) (started st) st2
      → Grows g (set_memo g2 m (finished v st2))
  finished-Grows m st st2 v g g2 e live dirty idle h e2 moved = record {
    signals = λ i si ei.
        let (si', ei', r) = h.signals i si ei in
        (si', ei', record { value = r.value; kept = r.kept });
    memos = λ j sj ej. elim (Bool-cases (m == j)) [
      | inl same ↦
          let q : st ≡ sj = ground arith in
          (
            finished v st2,
            get_elem?-set g2.memos m j st2 (finished v st2) e2 ∙ rw same refl,
            rw (sym q) (record {
              compute = moved.compute;
              disposed = moved.disposed;
              computing = sym idle;
              frozen = λ d. absurd (ground arith);
              clean = λ d. absurd (ground arith);
              kept = moved.kept;
            }),
          )
      | inr other ↦
          let e1 : get_elem? (set g.memos m (started st)) j ≡ some sj =
            get_elem?-set g.memos m j st (started st) e ∙ rw other ej in
          let (sj', ej', r) = h.memos j sj e1 in
          (
            sj',
            get_elem?-set g2.memos m j st2 (finished v st2) e2 ∙ rw other ej',
            record {
              compute = r.compute;
              disposed = r.disposed;
              computing = r.computing;
              frozen = r.frozen;
              clean = r.clean;
              kept = r.kept;
            },
          )
    ];
    effects = h.effects;
    signal_count = h.signal_count;
    memo_count =
        length-set g2.memos m (finished v st2) ∙ h.memo_count ∙ length-set g.memos m (started st);
  }

  Fresh-at :
      (g : Graph V) (m j : ℕ) (t t' : Reads V) (v : V)
      → m ≡ j
      → t ≡ t'
      → Fresh g (memo m) t v
      → Fresh g (memo j) t' v
  Fresh-at g m j t t' v p q f = rw (sym p, sym q) f

  -- A state of the memo that no one could have read before.
  pub set_memo-IsCurrent :
      (m : ℕ) (st st' : MemoState V) (g : Graph V)
      → get_elem? g.memos m ≡ some st
      → st.disposed ≡ false
      → (st.dirty ≡ true) ⊎ (st.computing ≡ true)
      → st'.compute ≡ st.compute
      → (st'.computing ≡ false → is_some st'.value ≡ true)
      → (st'.disposed ≡ false
          → st'.dirty ≡ false
          → st'.computing ≡ false
          → (v : V) × (st'.value ≡ some v) × Fresh g (memo m) st.compute v)
      → IsCurrent g
      → IsCurrent (set_memo g m st')
  set_memo-IsCurrent m st st' g e live unread same some_value up c = record {
    ordered = λ j sj ej. elim (Bool-cases (m == j)) [
      | inl here ↦ let (p, q) = at_m j sj ej here in rw (sym p, sym q, same) (c.ordered m st e)
      | inr other ↦ c.ordered j sj (sym (moved j other) ∙ ej)
    ];
    valued = λ j sj ej n. elim (Bool-cases (m == j)) [
      | inl here ↦
          let (p, q) = at_m j sj ej here in
          sym (ap (λ x. is_some x.value) q) ∙ some_value (ap (λ x. x.computing) q ∙ n)
      | inr other ↦ c.valued j sj (sym (moved j other) ∙ ej) n
    ];
    fresh = λ j sj ej d k n. elim (Bool-cases (m == j)) [
      | inl here ↦
          let (p, q) = at_m j sj ej here in
          let (v, val, f) =
            up (ap (λ x. x.disposed) q ∙ d) (ap (λ x. x.dirty) q ∙ k)
              (ap (λ x. x.computing) q ∙ n) in
          (
            v,
            sym (ap (λ x. x.value) q) ∙ val,
            Fresh-at (set_memo g m st') m j st.compute sj.compute v p
                (sym same ∙ ap (λ x. x.compute) q)
                (Fresh-set_memo g m st st' (memo m) st.compute v e live unread f),
          )
      | inr other ↦
          let (v, val, f) = c.fresh j sj (sym (moved j other) ∙ ej) d k n in
          (v, val, Fresh-set_memo g m st st' (memo j) sj.compute v e live unread f)
    ];
  }
    where
      moved : (j : ℕ) → (m == j) ≡ false → get_elem? (set g.memos m st') j ≡ get_elem? g.memos j
      moved j other = get_elem?-set g.memos m j st st' e ∙ rw other refl

      at_m :
          (j : ℕ) (sj : MemoState V)
          → get_elem? (set g.memos m st') j ≡ some sj
          → (m == j) ≡ true
          → (m ≡ j) × (st' ≡ sj)
      at_m j sj ej here = (ground arith, ground (arith, get_elem?-set g.memos m j st st' e))

  finish_compute-value :
      (m : ℕ) (g : Graph V) (st : MemoState V) (v : V)
      → get_elem? g.memos m ≡ some st
      → finish_compute m (value_of g v) ≡ value_of (set_memo g m (finished v st)) v
  unfolding finish_compute finish_memo
  finish_compute-value m g st v e = rw e refl

  recompute_now-some :
      (go : Option Subscriber → ℕ → Graph V → Reading V) (m : ℕ) (st : MemoState V) (g : Graph V)
      → get_elem? g.memos m ≡ some st
      → recompute_now go m g
        ≡ finish_compute m (compute_reads go (memo m) st.compute (set_memo g m (started st)))
  unfolding recompute_now
  recompute_now-some go m st g e = rw (e, recompute_now) refl

  IsQuiet-set_memo :
      (n m : ℕ) (st st' : MemoState V) (g : Graph V)
      → get_elem? g.memos m ≡ some st
      → n ≤ m
      → IsQuiet n g
      → IsQuiet n (set_memo g m st')
  IsQuiet-set_memo n m st st' g e l q j sj lj ej =
      q j sj lj (ground (arith, get_elem?-set g.memos m j st st' e, lj, l))

  -- A recomputation leaves the memo up to date.
  abbrev pub Recomputed : Graph V → ℕ → Reading V → Type 0
  Recomputed g m r =
      (g' : Graph V) × (v : V) × (r ≡ value_of g' v)
      × Grows g g'
      × IsCurrent g'
      × ((st' : MemoState V) × (get_elem? g'.memos m ≡ some st')
          × (st'.value ≡ some v)
          × (st'.disposed ≡ false)
          × (st'.dirty ≡ false)
          × (st'.computing ≡ false))

  pub recompute_now-Recomputed :
      (go : Option Subscriber → ℕ → Graph V → Reading V) (m : ℕ) (st : MemoState V) (g : Graph V)
      → Readable m go
      → get_elem? g.memos m ≡ some st
      → st.disposed ≡ false
      → st.dirty ≡ true
      → st.computing ≡ false
      → IsCurrent (set_memo g m (started st))
      → IsQuiet m g
      → Recomputed g m (recompute_now go m g)
  recompute_now-Recomputed go m st g w e live dirty idle c q = ending (
      compute_reads-Fresh go m (memo m) st.compute g1 w (c.ordered m (started st) e1)
        (omega (arith, get_elem?-lt g1.memos m (started st) e1)) refl c
        (IsQuiet-set_memo m m st (started st) g e (omega arith) q))
    where
      g1 : Graph V
      g1 = set_memo g m (started st)

      e1 : get_elem? g1.memos m ≡ some (started st)
      e1 = get_elem?-set_memo g m st (started st) e

      ending :
          ((g2 : Graph V) × (v : V) × (compute_reads go (memo m) st.compute g1 ≡ value_of g2 v)
            × Grows g1 g2
            × IsCurrent g2
            × Fresh g2 (memo m) st.compute v)
          → Recomputed g m (recompute_now go m g)
      ending (g2, v, r, h, c2, f) = close (h.memos m (started st) e1)
        where
          close :
              ((st2 : MemoState V) × (get_elem? g2.memos m ≡ some st2)
                × MemoGrows g1 (started st) st2)
              → Recomputed g m (recompute_now go m g)
          close (st2, e2, moved) = (
            set_memo g2 m (finished v st2),
            v,
            recompute_now-some go m st g e
                ∙ ap (finish_compute m) r
                ∙ finish_compute-value m g2 st2 v e2,
            finished-Grows m st st2 v g g2 e live dirty idle h e2 moved,
            set_memo-IsCurrent m st2 (finished v st2) g2 e2 (moved.disposed ∙ live)
                (inr (moved.computing)) refl (λ _. refl) (λ _ _ _. (v, refl, rw moved.compute f))
                c2,
            (
              finished v st2,
              get_elem?-set_memo g2 m st2 (finished v st2) e2,
              refl,
              moved.disposed ∙ live,
              (moved.clean refl).0,
              refl,
            ),
          )
