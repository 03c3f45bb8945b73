-- ===== src/Signal/Computing.antt =====
-- A computation of a memo gives an up-to-date value.
use krab_pub.Common.{
  ℕ, suc, ◌<◌, ◌≤◌, ◌≡◌, ◌∙◌, refl, true, false, Option, none, some, ◌⊎◌, length, get_elem?, arith,
  get_elem?-set, get_elem?-some,
}
use krab_pub.Signal.{
  Subscriber, subscribed, push_subscriber, Reads, done, read_signal, read_memo, SignalState,
  MemoState, Graph, is_alive, Reading, value_of, track_signal, get_signal, compute_reads,
}
use krab_pub.Signal.Fresh.{
  same_node_iff, subscribed-push_subscriber, IsSettled, Fresh, Grows, is_alive-Grows, Grows-refl,
  Grows-trans, IsSettled-value, IsSettled-Grows,
}
use krab_pub.Signal.Tracking.{
  IsBelow, IsCurrent, IsQuiet, IsQuiet-Grows, IsLive, track_signal-Grows, track_signal-IsCurrent,
}

module _ {V : Type 0} where
  -- How a read leaves the memo for its reader.
  abbrev pub IsReadBy : Option Subscriber → MemoState V → Type 0
  IsReadBy none st = (st.disposed ≡ true) ⊎ ((st.dirty ≡ false) × (st.computing ≡ false))
  IsReadBy (some s) st = IsSettled s st

  -- The read gives a value, keeps all that was up to date, and leaves the memo read.
  abbrev pub Gives : Graph V → Option Subscriber → ℕ → Reading V → Type 0
  Gives g current m r =
      (g' : Graph V) × (v : V) × (r ≡ value_of g' v)
      × Grows g g'
      × IsCurrent g'
      × ((st : MemoState V) × (get_elem? g'.memos m ≡ some st)
          × (st.value ≡ some v)
          × IsReadBy current st)

  abbrev pub Readable : ℕ → (Option Subscriber → ℕ → Graph V → Reading V) → Type 0
  Readable n go =
      (current : Option Subscriber) (m : ℕ) (g : Graph V)
      → m < n
      → m < length g.memos
      → IsLive g current
      → IsCurrent g
      → IsQuiet (suc m) g
      → Gives g current m (go current m g)

  track_signal-subscribed :
      (s : Subscriber) (i : ℕ) (st : SignalState V) (g : Graph V)
      → get_elem? g.signals i ≡ some st
      → is_alive g s ≡ true
      → (st' : SignalState V) × (get_elem? (track_signal (some s) i st g).signals i ≡ some st')
        × (st'.value ≡ st.value)
        × (subscribed s st'.subscribers ≡ true)
  unfolding track_signal
  track_signal-subscribed s i st g e live = (
    new,
    ground (arith, get_elem?-set g.signals i i st new e),
    ground arith,
    ground
        (arith, subscribed-push_subscriber (is_alive g) s s st.subscribers live, same_node_iff s s),
  )
    where
      new : SignalState V
      new = record st { subscribers = push_subscriber (is_alive g) st.subscribers s }

  get_signal-some :
      (current : Option Subscriber) (i : ℕ) (st : SignalState V) (g : Graph V)
      → get_elem? g.signals i ≡ some st
      → get_signal current i g ≡ value_of (track_signal current i st g) st.value
  unfolding get_signal
  get_signal-some current i st g e = rw (e, get_signal) refl

  compute_reads-signal :
      (go : Option Subscriber → ℕ → Graph V → Reading V) (s : Subscriber) (i : ℕ) (k : V → Reads V)
      (st : SignalState V) (g : Graph V)
      → get_elem? g.signals i ≡ some st
      → compute_reads go s (read_signal i k) g
        ≡ compute_reads go s (k st.value) (track_signal (some s) i st g)
  unfolding compute_reads
  compute_reads-signal go s i k st g e = rw (get_signal-some (some s) i st g e) refl

  compute_reads-memo :
      (go : Option Subscriber → ℕ → Graph V → Reading V) (s : Subscriber) (m : ℕ) (k : V → Reads V)
      (g g1 : Graph V) (x : V)
      → go (some s) m g ≡ value_of g1 x
      → compute_reads go s (read_memo m k) g ≡ compute_reads go s (k x) g1
  unfolding compute_reads
  compute_reads-memo go s m k g g1 x e = rw e refl

  pub compute_reads-Fresh :
      (go : Option Subscriber → ℕ → Graph V → Reading V) (n : ℕ) (s : Subscriber) (t : Reads V)
      (g : Graph V)
      → Readable n go
      → IsBelow (length g.signals) n t
      → n ≤ length g.memos
      → is_alive g s ≡ true
      → IsCurrent g
      → IsQuiet n g
      → (g' : Graph V) × (v : V) × (compute_reads go s t g ≡ value_of g' v)
        × Grows g g'
        × IsCurrent g'
        × Fresh g' s t v
  unfolding compute_reads get_signal
  compute_reads-Fresh go n s (done x) g w b l live c q = (g, x, refl, Grows-refl g, c, refl)
  compute_reads-Fresh go n s (read_signal i k) g w b l live c q =
      let (st, e) = get_elem?-some g.signals i b.0 in
      let g1 : Graph V = track_signal (some s) i st g in
      let h = track_signal-Grows (some s) i st g e in
      let c1 = track_signal-IsCurrent (some s) i st g e c in
      let (g', v, r, h', c', f) =
        compute_reads-Fresh go n s (k st.value) g1 w (rw h.signal_count (b.1 st.value)) l
          (is_alive-Grows g g1 s h ∙ live) c1 (IsQuiet-Grows n g g1 h q) in
      let (st1, e1, v1, sub) = track_signal-subscribed s i st g e live in
      let (st', e', moved) = h'.signals i st1 e1 in
      (
        g',
        v,
        compute_reads-signal go s i k st g e ∙ r,
        Grows-trans g g1 g' h h',
        c',
        (st', e', moved.kept s (is_alive-Grows g g1 s h ∙ live) sub, rw (moved.value ∙ v1) f),
      )
  compute_reads-Fresh go n s (read_memo m k) g w b l live c q =
      let (g1, x, r1, h, c1, (st, e, val, settled)) =
        w (some s) m g b.0 (omega (arith, b.0, l)) live c
          (λ j sj lj ej. q j sj (omega (arith, lj, b.0)) ej) in
      let (g', v, r, h', c', f) =
        compute_reads-Fresh go n s (k x) g1 w (rw h.signal_count (b.1 x)) (rw h.memo_count l)
          (is_alive-Grows g g1 s h ∙ live) c1 (IsQuiet-Grows n g g1 h q) in
      let (st', e', moved) = h'.memos m st e in
      (
        g',
        v,
        compute_reads-memo go s m k g g1 x r1 ∙ r,
        Grows-trans g g1 g' h h',
        c',
        (
          st',
          x,
          e',
          IsSettled-value g1 s st st' moved settled ∙ val,
          IsSettled-Grows g1 s st st' moved (is_alive-Grows g g1 s h ∙ live) settled,
          f,
        ),
      )
