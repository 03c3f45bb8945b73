-- ===== src/Signal/Fresh.antt =====
-- When a cached result is up to date, and what a read may change without making one stale.
use krab_pub.Common.{
  ℕ, ◌≡◌, ◌∙◌, refl, Bool, true, false, ◌||◌, List, [], ◌∷◌, ◌++◌, some, ◌⊎◌, inl, inr, ◌==◌,
  filter, length, get_elem?, set, arith, get_elem?-set, Bool-cases, ◌↔◌,
}
use krab_pub.Signal.{
  Subscriber, effect, memo, same_node, subscribed, push_subscriber, Reads, done, read_signal,
  read_memo, SignalState, MemoState, Graph, is_alive, set_memo,
}

pub same_node_iff : (a b : Subscriber) → (same_node a b ≡ true) ↔ (a ≡ b)
unfolding same_node
same_node_iff (effect a) (effect b) = ground arith
same_node_iff (memo a) (memo b) = ground arith
same_node_iff (effect a) (memo b) = ground arith
same_node_iff (memo a) (effect b) = ground arith

subscribed-filter :
    (p : Subscriber → Bool) (s : Subscriber) (ts : List Subscriber)
    → p s ≡ true
    → subscribed s (filter p ts) ≡ subscribed s ts
subscribed-filter p s [] h = refl
subscribed-filter p s (t ∷ ts) h = ground (arith, subscribed-filter p s ts h, same_node_iff t s)

subscribed-append :
    (s t : Subscriber) (ts : List Subscriber)
    → subscribed s (ts ++ t ∷ []) ≡ (subscribed s ts || same_node t s)
subscribed-append s t [] = ground arith
subscribed-append s t (u ∷ ts) = ground (arith, subscribed-append s t ts)

-- A tracked read adds the reader and loses no live subscriber.
pub subscribed-push_subscriber :
    (p : Subscriber → Bool) (s t : Subscriber) (ts : List Subscriber)
    → p s ≡ true
    → subscribed s (push_subscriber p ts t) ≡ (subscribed s ts || same_node t s)
unfolding push_subscriber
subscribed-push_subscriber p s t ts h =
    ground
      (arith, subscribed-append s t (filter p ts), subscribed-filter p s ts h, same_node_iff t s)

module _ {V : Type 0} where
  -- The memo keeps its value for good, or its value is up to date and the reader hears of changes.
  abbrev pub IsSettled : Subscriber → MemoState V → Type 0
  IsSettled s st =
      (st.disposed ≡ true)
      ⊎ ((st.dirty ≡ false) × (st.computing ≡ false) × (subscribed s st.subscribers ≡ true))

  -- On the graph's present values the closure gives this result, and its node is subscribed to all
  -- that it read.
  abbrev pub Fresh : Graph V → Subscriber → Reads V → V → Type 0
  Fresh g s (done x) v = x ≡ v
  Fresh g s (read_signal i k) v =
      (st : SignalState V) × (get_elem? g.signals i ≡ some st)
      × (subscribed s st.subscribers ≡ true)
      × Fresh g s (k st.value) v
  Fresh g s (read_memo m k) v =
      (st : MemoState V) × (x : V) × (get_elem? g.memos m ≡ some st)
      × (st.value ≡ some x)
      × IsSettled s st
      × Fresh g s (k x) v

  -- What a read leaves alone, in a signal and in a memo.
  pub record SignalGrows (g : Graph V) (st st' : SignalState V) : Type 0 where
    pub value : st'.value ≡ st.value
    pub kept :
        (s : Subscriber)
        → is_alive g s ≡ true
        → subscribed s st.subscribers ≡ true
        → subscribed s st'.subscribers ≡ true

  pub record MemoGrows (g : Graph V) (st st' : MemoState V) : Type 0 where
    pub compute : st'.compute ≡ st.compute
    pub disposed : st'.disposed ≡ st.disposed
    pub computing : st'.computing ≡ st.computing
    pub frozen : st.disposed ≡ true → st'.value ≡ st.value
    pub clean : st.dirty ≡ false → (st'.dirty ≡ false) × (st'.value ≡ st.value)
    pub kept :
        (s : Subscriber)
        → is_alive g s ≡ true
        → subscribed s st.subscribers ≡ true
        → subscribed s st'.subscribers ≡ true

  pub record Grows (g g' : Graph V) : Type 0 where
    pub signals :
        (i : ℕ) (st : SignalState V)
        → get_elem? g.signals i ≡ some st
        → (st' : SignalState V) × (get_elem? g'.signals i ≡ some st') × SignalGrows g st st'
    pub memos :
        (m : ℕ) (st : MemoState V)
        → get_elem? g.memos m ≡ some st
        → (st' : MemoState V) × (get_elem? g'.memos m ≡ some st') × MemoGrows g st st'
    pub effects : g'.effects ≡ g.effects
    pub signal_count : length g'.signals ≡ length g.signals
    pub memo_count : length g'.memos ≡ length g.memos

  pub is_alive-Grows : (g g' : Graph V) (s : Subscriber) → Grows g g' → is_alive g' s ≡ is_alive g s
  is_alive-Grows g g' (memo m) h = refl
  is_alive-Grows g g' (effect e) h = rw h.effects refl

  pub Grows-refl : (g : Graph V) → Grows g g
  Grows-refl g = record {
    signals = λ i st e. (st, e, record { value = refl; kept = λ s a i. i });
    memos = λ m st e. (
      st,
      e,
      record {
        compute = refl;
        disposed = refl;
        computing = refl;
        frozen = λ d. refl;
        clean = λ c. (c, refl);
        kept = λ s a i. i;
      },
    );
    effects = refl;
    signal_count = refl;
    memo_count = refl;
  }

  pub Grows-trans : (a b c : Graph V) → Grows a b → Grows b c → Grows a c
  Grows-trans a b c h h' = record {
    signals = λ i st e.
        let (st', e', r) = h.signals i st e in
        let (st'', e'', r') = h'.signals i st' e' in
        (
          st'',
          e'',
          record {
            value = r'.value ∙ r.value;
            kept = λ s l i. r'.kept s (is_alive-Grows a b s h ∙ l) (r.kept s l i);
          },
        );
    memos = λ m st e.
        let (st', e', r) = h.memos m st e in
        let (st'', e'', r') = h'.memos m st' e' in
        (
          st'',
          e'',
          record {
            compute = r'.compute ∙ r.compute;
            disposed = r'.disposed ∙ r.disposed;
            computing = r'.computing ∙ r.computing;
            frozen = λ d. r'.frozen (r.disposed ∙ d) ∙ r.frozen d;
            clean = λ c. let (d, v) = r.clean c in let (d', v') = r'.clean d in (d', v' ∙ v);
            kept = λ s l i. r'.kept s (is_alive-Grows a b s h ∙ l) (r.kept s l i);
          },
        );
    effects = h'.effects ∙ h.effects;
    signal_count = h'.signal_count ∙ h.signal_count;
    memo_count = h'.memo_count ∙ h.memo_count;
  }

  pub IsSettled-value :
      (g : Graph V) (s : Subscriber) (st st' : MemoState V)
      → MemoGrows g st st'
      → IsSettled s st
      → st'.value ≡ st.value
  IsSettled-value g s st st' r (inl d) = r.frozen d
  IsSettled-value g s st st' r (inr (c, n, sub)) = (r.clean c).1

  pub IsSettled-Grows :
      (g : Graph V) (s : Subscriber) (st st' : MemoState V)
      → MemoGrows g st st'
      → is_alive g s ≡ true
      → IsSettled s st
      → IsSettled s st'
  IsSettled-Grows g s st st' r l (inl d) = inl (r.disposed ∙ d)
  IsSettled-Grows g s st st' r l (inr (c, n, sub)) =
      inr ((r.clean c).0, r.computing ∙ n, r.kept s l sub)

  -- What was up to date still is.
  pub Fresh-Grows :
      (g g' : Graph V) (s : Subscriber) (t : Reads V) (v : V)
      → Grows g g'
      → is_alive g s ≡ true
      → Fresh g s t v
      → Fresh g' s t v
  Fresh-Grows g g' s (done x) v h l f = f
  Fresh-Grows g g' s (read_signal i k) v h l (st, e, sub, f) =
      let (st', e', r) = h.signals i st e in
      (st', e', r.kept s l sub, rw r.value (Fresh-Grows g g' s (k st.value) v h l f))
  Fresh-Grows g g' s (read_memo m k) v h l (st, x, e, val, settled, f) =
      let (st', e', r) = h.memos m st e in
      (
        st',
        x,
        e',
        IsSettled-value g s st st' r settled ∙ val,
        IsSettled-Grows g s st st' r l settled,
        Fresh-Grows g g' s (k x) v h l f,
      )

  -- A memo that nobody could have read as up to date may change freely.
  pub Fresh-set_memo :
      (g : Graph V) (m : ℕ) (st st' : MemoState V) (s : Subscriber) (t : Reads V) (v : V)
      → get_elem? g.memos m ≡ some st
      → st.disposed ≡ false
      → (st.dirty ≡ true) ⊎ (st.computing ≡ true)
      → Fresh g s t v
      → Fresh (set_memo g m st') s t v
  Fresh-set_memo g m st st' s (done x) v e d u f = f
  Fresh-set_memo g m st st' s (read_signal i k) v e d u (si, ei, sub, f) =
      (si, ei, sub, Fresh-set_memo g m st st' s (k si.value) v e d u f)
  Fresh-set_memo g m st st' s (read_memo j k) v e d u (sj, x, ej, val, settled, f) =
      (sj, x, other, val, settled, Fresh-set_memo g m st st' s (k x) v e d u f)
    where
      other : get_elem? (set g.memos m st') j ≡ some sj
      other = elim (Bool-cases (m == j)) [
        | inl same ↦ absurd (ground arith)
        | inr apart ↦ ground (arith, get_elem?-set g.memos m j st st' e)
      ]
