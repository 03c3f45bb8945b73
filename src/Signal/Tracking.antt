-- ===== src/Signal/Tracking.antt =====
-- The invariant of the graph, and that a tracked read keeps it.
use krab_pub.Common.{
  ℕ, ◌<◌, ◌≡◌, ◌∙◌, sym, ap, refl, true, false, Option, none, some, inl, inr, ◌==◌, length,
  get_elem?, arith, get_elem?-set, get_elem?-some, get_elem?-lt, length-set, Bool-cases, is_some,
}
use krab_pub.Signal.{
  Subscriber, memo, push_subscriber, Reads, done, read_signal, read_memo, SignalState, MemoState,
  Graph, is_alive, track_signal, track_memo,
}
use krab_pub.Signal.Fresh.{
  subscribed-push_subscriber, Fresh, MemoGrows, Grows, Grows-refl, Fresh-Grows,
}

module _ {V : Type 0} where
  -- Reads of signals that exist, and of memos before the n-th.
  abbrev pub IsBelow : ℕ → ℕ → Reads V → Type 0
  IsBelow signals n (done v) = Unit {0}
  IsBelow signals n (read_signal i k) = (i < signals) × ((v : V) → IsBelow signals n (k v))
  IsBelow signals n (read_memo m k) = (m < n) × ((v : V) → IsBelow signals n (k v))

  -- Closures read memos made before their own, a memo out of its computation has a value, and one
  -- that is neither disposed nor dirty has an up-to-date one.
  pub record IsCurrent (g : Graph V) : Type 0 where
    pub ordered :
        (m : ℕ) (st : MemoState V)
        → get_elem? g.memos m ≡ some st
        → IsBelow (length g.signals) m st.compute
    pub valued :
        (m : ℕ) (st : MemoState V)
        → get_elem? g.memos m ≡ some st
        → st.computing ≡ false
        → is_some st.value ≡ true
    pub fresh :
        (m : ℕ) (st : MemoState V)
        → get_elem? g.memos m ≡ some st
        → st.disposed ≡ false
        → st.dirty ≡ false
        → st.computing ≡ false
        → (v : V) × (st.value ≡ some v) × Fresh g (memo m) st.compute v

  -- No memo before the n-th is being computed.
  abbrev pub IsQuiet : ℕ → Graph V → Type 0
  IsQuiet n g =
      (m : ℕ) (st : MemoState V) → m < n → get_elem? g.memos m ≡ some st → st.computing ≡ false

  pub Grows-memo :
      (g g' : Graph V) (m : ℕ) (st' : MemoState V)
      → Grows g g'
      → get_elem? g'.memos m ≡ some st'
      → (st : MemoState V) × (get_elem? g.memos m ≡ some st) × MemoGrows g st st'
  Grows-memo g g' m st' h e' =
      let below : m < length g.memos =
        ground (arith, get_elem?-lt g'.memos m st' e', h.memo_count) in
      let (st, e) = get_elem?-some g.memos m below in
      let (st'', e'', r) = h.memos m st e in
      let same : st'' ≡ st' = ground arith in (st, e, rw (sym same) r)

  pub IsQuiet-Grows : (n : ℕ) (g g' : Graph V) → Grows g g' → IsQuiet n g → IsQuiet n g'
  IsQuiet-Grows n g g' h q m st' l e' =
      let (st, e, r) = Grows-memo g g' m st' h e' in r.computing ∙ q m st l e

  -- A change of the subscribers alone.
  IsCurrent-Grows :
      (g g' : Graph V)
      → Grows g g'
      → ((m : ℕ) (st st' : MemoState V)
          → get_elem? g.memos m ≡ some st
          → get_elem? g'.memos m ≡ some st'
          → (st'.dirty ≡ st.dirty) × (st'.value ≡ st.value))
      → IsCurrent g
      → IsCurrent g'
  IsCurrent-Grows g g' h same c = record {
    ordered = λ m st' e'.
        let (st, e, r) = Grows-memo g g' m st' h e' in
        rw (h.signal_count, r.compute) (c.ordered m st e);
    valued = λ m st' e' n.
        let (st, e, r) = Grows-memo g g' m st' h e' in
        ap is_some (same m st st' e e').1 ∙ c.valued m st e (sym r.computing ∙ n);
    fresh = λ m st' e' d k n.
        let (st, e, r) = Grows-memo g g' m st' h e' in
        let (v, val, f) =
          c.fresh m st e (sym r.disposed ∙ d) (sym (same m st st' e e').0 ∙ k)
            (sym r.computing ∙ n) in
        (
          v,
          (same m st st' e e').1 ∙ val,
          rw r.compute (Fresh-Grows g g' (memo m) st.compute v h refl f),
        );
  }

  abbrev pub IsLive : Graph V → Option Subscriber → Type 0
  IsLive g none = Unit {0}
  IsLive g (some s) = is_alive g s ≡ true

  pub track_signal-Grows :
      (current : Option Subscriber) (i : ℕ) (st : SignalState V) (g : Graph V)
      → get_elem? g.signals i ≡ some st
      → Grows g (track_signal current i st g)
  unfolding track_signal
  track_signal-Grows none i st g e = Grows-refl g
  track_signal-Grows (some s) i st g e = record {
    signals = λ j sj ej. elim (Bool-cases (i == j)) [
      | inl same ↦ (
        new,
        get_elem?-set g.signals i j st new e ∙ rw same refl,
        record {
          value = ground arith;
          kept = λ t l sub.
              ground (arith, subscribed-push_subscriber (is_alive g) t s st.subscribers l);
        },
      )
      | inr other ↦ (
        sj,
        get_elem?-set g.signals i j st new e ∙ rw other ej,
        record { value = refl; kept = λ t l sub. sub },
      )
    ];
    memos = (Grows-refl g).memos;
    effects = refl;
    signal_count = length-set g.signals i new;
    memo_count = refl;
  }
    where
      new : SignalState V
      new = record st { subscribers = push_subscriber (is_alive g) st.subscribers s }

  pub track_memo-Grows :
      (current : Option Subscriber) (m : ℕ) (st : MemoState V) (g : Graph V)
      → get_elem? g.memos m ≡ some st
      → Grows g (track_memo current m st g)
  unfolding track_memo
  track_memo-Grows none m st g e = Grows-refl g
  track_memo-Grows (some s) m st g e = record {
    signals = (Grows-refl g).signals;
    memos = λ j sj ej. elim (Bool-cases (m == j)) [
      | inl same ↦
          let q : st ≡ sj = ground arith in
          (
            new,
            get_elem?-set g.memos m j st new e ∙ rw same refl,
            rw (sym q) (record {
              compute = refl;
              disposed = refl;
              computing = refl;
              frozen = λ d. refl;
              clean = λ c. (c, refl);
              kept = λ t l sub.
                  ground (arith, subscribed-push_subscriber (is_alive g) t s st.subscribers l);
            }),
          )
      | inr other ↦ (
        sj,
        get_elem?-set g.memos m j st new e ∙ rw other ej,
        record {
          compute = refl;
          disposed = refl;
          computing = refl;
          frozen = λ d. refl;
          clean = λ c. (c, refl);
          kept = λ t l sub. sub;
        },
      )
    ];
    effects = refl;
    signal_count = refl;
    memo_count = length-set g.memos m new;
  }
    where
      new : MemoState V
      new = record st { subscribers = push_subscriber (is_alive g) st.subscribers s }

  pub track_signal-IsCurrent :
      (current : Option Subscriber) (i : ℕ) (st : SignalState V) (g : Graph V)
      → get_elem? g.signals i ≡ some st
      → IsCurrent g
      → IsCurrent (track_signal current i st g)
  unfolding track_signal
  track_signal-IsCurrent none i st g e c = c
  track_signal-IsCurrent (some s) i st g e c =
      IsCurrent-Grows g _ (track_signal-Grows (some s) i st g e)
        (λ m sm sm' em em'. (ground arith, ground arith)) c

  pub track_memo-IsCurrent :
      (current : Option Subscriber) (m : ℕ) (st : MemoState V) (g : Graph V)
      → get_elem? g.memos m ≡ some st
      → IsCurrent g
      → IsCurrent (track_memo current m st g)
  unfolding track_memo
  track_memo-IsCurrent none m st g e c = c
  track_memo-IsCurrent (some s) m st g e c =
      IsCurrent-Grows g _ (track_memo-Grows (some s) m st g e)
        (λ j sj sj' ej ej'.
          let moved =
            get_elem?-set g.memos m j st
              (record st { subscribers = push_subscriber (is_alive g) st.subscribers s }) e in
          (ground arith, ground arith))
        c
