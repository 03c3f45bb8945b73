-- ===== src/Signal/Writing.antt =====
-- What `WriteSignal::set` leaves: memos that are out of date are dirty, effects that are, queued.
use krab_pub.Common.{
  ℕ, ◌+◌, ◌<◌, ◌≤◌, ◌≡◌, ◌∙◌, sym, ap, refl, true, false, List, [], Option, some, ◌⊎◌, inl, inr,
  ◌==◌, length, get_elem?, set, arith, get_elem?-set, get_elem?-some, get_elem?-lt, length-set,
  Bool-cases, is_some,
}
use krab_pub.Signal.{
  Subscriber, effect, memo, subscribed, Reads, done, read_signal, read_memo, SignalState, MemoState,
  Graph, collect_each, collect_dependents, set_signal,
}
use krab_pub.Signal.Fresh.{Fresh}
use krab_pub.Signal.Tracking.{IsCurrent}
use krab_pub.Signal.Marking.{
  MemoMarks, Marks, open_memos, Collects, collect_each-Collects, collect_dependents-Collects,
}
use krab_pub.Signal.Watching.{IsActive, Watched, collect_each-Follows, collect_dependents-Follows}

module _ {V : Type 0} where
  abbrev pub overwritten : V → SignalState V
  overwritten v = record { value = v; subscribers = [] }

  abbrev pub write_value : ℕ → V → Graph V → Graph V
  write_value i v g = record g { signals = set g.signals i (overwritten v) }

  -- A reader of the signal is among its subscribers.
  Fresh-write_value :
      (s : Subscriber) (t : Reads V) (w : V) (g : Graph V) (i : ℕ) (v : V) (st : SignalState V)
      → get_elem? g.signals i ≡ some st
      → Fresh g s t w
      → (subscribed s st.subscribers ≡ true) ⊎ Fresh (write_value i v g) s t w
  Fresh-write_value s (done x) w g i v st e f = inr f
  Fresh-write_value s (read_memo m k) w g i v st e (sm, x, em, val, settled, f) =
      elim (Fresh-write_value s (k x) w g i v st e f) [
        | inl h ↦ inl h
        | inr h ↦ inr (sm, x, em, val, settled, h)
      ]
  Fresh-write_value s (read_signal j k) w g i v st e (sj, ej, sub, f) = elim (Bool-cases (i == j)) [
    | inl same ↦ inl (ground arith)
    | inr other ↦ elim (Fresh-write_value s (k sj.value) w g i v st e f) [
      | inl h ↦ inl h
      | inr h ↦ inr (sj, get_elem?-set g.signals i j st (overwritten v) e ∙ rw other ej, sub, h)
    ]
  ]

  pub Marks-memo :
      (g g' : Graph V) (m : ℕ) (st' : MemoState V)
      → Marks g g'
      → get_elem? g'.memos m ≡ some st'
      → (st : MemoState V) × (get_elem? g.memos m ≡ some st) × MemoMarks st st'
  Marks-memo g g' m st' h e' =
      let below : m < length g.memos =
        ground (arith, get_elem?-lt g'.memos m st' e', h.memo_count) in
      let (st, e) = get_elem?-some g.memos m below in
      let (st'', e'', r) = h.memos m st e in
      let same : st'' ≡ st' = ground arith in (st, e, rw (sym same) r)

  -- All that was active and up to date is now marked, or up to date still.
  abbrev pub IsHandled : Graph V → Graph V × List ℕ → Type 0
  IsHandled g acc =
      (s : Subscriber) (t : Reads V) (w : V) → IsActive s g → Fresh g s t w → Watched s t w ⊥ acc

  -- The write of a value comes back.
  abbrev pub Writes : ℕ → V → Graph V → Type 0
  Writes i v g =
      (g' : Graph V) × (q : List ℕ) × (set_signal i v g ≡ some (g', q))
      × Marks (write_value i v g) g'
      × IsHandled g (g', q)

  same_end :
      (s : Subscriber) (t : Reads V) (w : V) (start end : Graph V × List ℕ)
      (r : Option (Graph V × List ℕ))
      → r ≡ some end
      → ((acc : Graph V × List ℕ) × (r ≡ some acc)
          × (open_memos acc.0 ≤ open_memos start.0)
          × Marks start.0 acc.0
          × Watched s t w ⊥ acc)
      → Watched s t w ⊥ end
  same_end s t w start end r e (acc, e', l, h, watched) =
      let same : acc ≡ end = ground arith in rw (sym same) watched

  set_signal-some :
      (i : ℕ) (v : V) (g : Graph V) (st : SignalState V)
      → get_elem? g.signals i ≡ some st
      → set_signal i v g
        ≡ collect_each
            (collect_dependents (open_memos g + 1))
            st.subscribers
            (write_value i v g, [])
  unfolding set_signal
  set_signal-some i v g st e = rw (e, set_signal) refl

  -- A write to a signal that exists comes back on any graph, also where memos read each other in a
  -- cycle. It changes the value of the signal alone, and of the memos only subscribers and, to true,
  -- dirty flags. Each active node whose reads were all up to date is then marked dirty (a memo) or
  -- queued (an effect), or its reads are up to date still.
  pub set_signal-Writes : (i : ℕ) (v : V) (g : Graph V) → i < length g.signals → Writes i v g
  set_signal-Writes i v g l = found (get_elem?-some g.signals i l)
    where
      found : ((st : SignalState V) × (get_elem? g.signals i ≡ some st)) → Writes i v g
      found (st, e) = ending (
          collect_each-Collects (collect_dependents fuel) fuel st.subscribers start
            (collect_dependents-Collects fuel) (omega arith))
        where
          fuel : ℕ
          fuel = open_memos g + 1

          start : Graph V × List ℕ
          start = (write_value i v g, [])

          ending :
              Collects start (collect_each (collect_dependents fuel) st.subscribers start)
              → Writes i v g
          ending ((g', q), r, l', h) = (g', q, set_signal-some i v g st e ∙ r, h, handled)
            where
              begins :
                  (s : Subscriber) (t : Reads V) (w : V)
                  → Fresh g s t w
                  → Watched s t w ((subscribed s st.subscribers ≡ true) ⊎ ⊥) start
              begins s t w f = elim (Fresh-write_value s t w g i v st e f) [
                | inl sub ↦ inr (inl (inl sub))
                | inr h ↦ inr (inr h)
              ]

              active : (s : Subscriber) → IsActive s g → IsActive s start.0
              active (effect x) a = a
              active (memo x) a = a

              handled : IsHandled g (g', q)
              handled s t w a f =
                  same_end s t w start (g', q) _ r
                    (collect_each-Follows s t w (collect_dependents fuel) fuel st.subscribers ⊥
                      start (collect_dependents-Follows s t w fuel) (omega arith) (active s a)
                      (begins s t w f))

  -- After a write every memo that is served is up to date.
  pub Writes-IsCurrent :
      (i : ℕ) (v : V) (g g' : Graph V) (q : List ℕ)
      → i < length g.signals
      → IsCurrent g
      → Marks (write_value i v g) g'
      → IsHandled g (g', q)
      → IsCurrent g'
  Writes-IsCurrent i v g g' q l c h handled = record {
    ordered = λ m st' e'.
        let (st, e, r) = Marks-memo (write_value i v g) g' m st' h e' in
        rw (h.signals, length-set g.signals i (overwritten v), r.compute) (c.ordered m st e);
    valued = λ m st' e' n.
        let (st, e, r) = Marks-memo (write_value i v g) g' m st' h e' in
        ap is_some r.value ∙ c.valued m st e (sym r.computing ∙ n);
    fresh = λ m st' e' d k n. still m st' e' k (Marks-memo (write_value i v g) g' m st' h e') d n;
  }
    where
      still :
          (m : ℕ) (st' : MemoState V)
          → get_elem? g'.memos m ≡ some st'
          → st'.dirty ≡ false
          → ((st : MemoState V) × (get_elem? g.memos m ≡ some st) × MemoMarks st st')
          → st'.disposed ≡ false
          → st'.computing ≡ false
          → (w : V) × (st'.value ≡ some w) × Fresh g' (memo m) st'.compute w
      still m st' e' k (st, e, r) d n =
          up (c.fresh m st e (sym r.disposed ∙ d) clean (sym r.computing ∙ n))
        where
          clean : st.dirty ≡ false
          clean = elim (Bool-cases st.dirty) [
            | inl dirty ↦ absurd (ground (arith, r.dirty dirty))
            | inr unset ↦ unset
          ]

          up :
              ((w : V) × (st.value ≡ some w) × Fresh g (memo m) st.compute w)
              → (w : V) × (st'.value ≡ some w) × Fresh g' (memo m) st'.compute w
          up (w, val, f) = (
            w,
            r.value ∙ val,
            rw r.compute (seen (handled (memo m) st.compute w (st, e, sym r.disposed ∙ d) f)),
          )
            where
              seen : Watched (memo m) st.compute w ⊥ (g', q) → Fresh g' (memo m) st.compute w
              seen (inl (sm, em, dirty)) = absurd (ground arith)
              seen (inr (inl none_left)) = absurd none_left
              seen (inr (inr f)) = f
