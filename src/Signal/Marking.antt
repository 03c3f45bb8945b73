-- ===== src/Signal/Marking.antt =====
-- `collect_dependents` ends, whatever the graph, and does no more than mark memos.
use krab_pub.Common.{
  ℕ, zero, suc, ◌+◌, ◌<◌, ◌≤◌, ◌≡◌, ◌∙◌, sym, ap, refl, Bool, true, false, ◌||◌, List, [], ◌∷◌,
  Option, none, some, ◌⊎◌, inl, inr, ◌==◌, if_true, if_false, length, get_elem?, set, sum_of, arith,
  get_elem?-set, length-set, Bool-cases, Option-cases,
}
use krab_pub.Signal.{
  Subscriber, effect, memo, MemoState, Graph, set_memo, push_unique, collect_each, collect_memo,
  collect_dependents, has_subscribers,
}

unfoldable pub queued : ℕ → List ℕ → Bool
queued e [] = false
queued e (d ∷ ds) = d == e || queued e ds

pub queued-push_unique :
    (e d : ℕ) (ds : List ℕ) → queued e (push_unique d ds) ≡ (d == e || queued e ds)
unfolding queued
queued-push_unique e d [] = ground arith
queued-push_unique e d (c ∷ ds) = ground (arith, queued-push_unique e d ds)

module _ {V : Type 0} where
  -- Memos marked dirty, and nothing else that a result depends on.
  pub record MemoMarks (st st' : MemoState V) : Type 0 where
    pub compute : st'.compute ≡ st.compute
    pub value : st'.value ≡ st.value
    pub computing : st'.computing ≡ st.computing
    pub disposed : st'.disposed ≡ st.disposed
    pub dirty : st.dirty ≡ true → st'.dirty ≡ true

  pub record Marks (g g' : Graph V) : Type 0 where
    pub memos :
        (m : ℕ) (st : MemoState V)
        → get_elem? g.memos m ≡ some st
        → (st' : MemoState V) × (get_elem? g'.memos m ≡ some st') × MemoMarks st st'
    pub signals : g'.signals ≡ g.signals
    pub effects : g'.effects ≡ g.effects
    pub memo_count : length g'.memos ≡ length g.memos

  pub Marks-refl : (g : Graph V) → Marks g g
  Marks-refl g = record {
    memos = λ m st e. (
      st,
      e,
      record { compute = refl; value = refl; computing = refl; disposed = refl; dirty = λ d. d },
    );
    signals = refl;
    effects = refl;
    memo_count = refl;
  }

  pub Marks-trans : (a b c : Graph V) → Marks a b → Marks b c → Marks a c
  Marks-trans a b c h h' = record {
    memos = λ m st e.
        let (st', e', r) = h.memos m st e in
        let (st'', e'', r') = h'.memos m st' e' in
        (
          st'',
          e'',
          record {
            compute = r'.compute ∙ r.compute;
            value = r'.value ∙ r.value;
            computing = r'.computing ∙ r.computing;
            disposed = r'.disposed ∙ r.disposed;
            dirty = λ d. r'.dirty (r.dirty d);
          },
        );
    signals = h'.signals ∙ h.signals;
    effects = h'.effects ∙ h.effects;
    memo_count = h'.memo_count ∙ h.memo_count;
  }

  abbrev pub marked : MemoState V → MemoState V
  marked st = record st { dirty = true; subscribers = [] }

  pub set_memo-Marks :
      (g : Graph V) (m : ℕ) (st : MemoState V)
      → get_elem? g.memos m ≡ some st
      → Marks g (set_memo g m (marked st))
  set_memo-Marks g m st e = record {
    memos = λ j sj ej. elim (Bool-cases (m == j)) [
      | inl same ↦
          let q : st ≡ sj = ground arith in
          (
            marked st,
            get_elem?-set g.memos m j st (marked st) e ∙ rw same refl,
            rw (sym q) (record {
              compute = refl;
              value = refl;
              computing = refl;
              disposed = refl;
              dirty = λ _. refl;
            }),
          )
      | inr other ↦ (
        sj,
        get_elem?-set g.memos m j st (marked st) e ∙ rw other ej,
        record { compute = refl; value = refl; computing = refl; disposed = refl; dirty = λ d. d },
      )
    ];
    signals = refl;
    effects = refl;
    memo_count = length-set g.memos m (marked st);
  }

  abbrev pub open_memos : Graph V → ℕ
  open_memos g = sum_of has_subscribers g.memos

  pub sum_of-marked :
      (xs : List (MemoState V)) (m : ℕ) (st : MemoState V)
      → get_elem? xs m ≡ some st
      → sum_of has_subscribers (set xs m (marked st)) + has_subscribers st
        ≡ sum_of has_subscribers xs
  sum_of-marked [] m st e = ground arith
  sum_of-marked (x ∷ xs) zero st e = let q : x ≡ st = ground arith in rw (sym q) (omega arith)
  sum_of-marked (x ∷ xs) (suc m) st e = omega (arith, sum_of-marked xs m st e)

  -- The walk comes back, having marked memos only.
  abbrev pub Collects : Graph V × List ℕ → Option (Graph V × List ℕ) → Type 0
  Collects acc r =
      (acc' : Graph V × List ℕ) × (r ≡ some acc')
      × (open_memos acc'.0 ≤ open_memos acc.0)
      × Marks acc.0 acc'.0

  pub collect_each-cons :
      (go : Subscriber → Graph V × List ℕ → Option (Graph V × List ℕ)) (s : Subscriber)
      (ss : List Subscriber) (acc acc' : Graph V × List ℕ)
      → go s acc ≡ some acc'
      → collect_each go (s ∷ ss) acc ≡ collect_each go ss acc'
  unfolding collect_each
  collect_each-cons go s ss acc acc' e = rw (e, collect_each) refl

  pub collect_each-nil :
      (go : Subscriber → Graph V × List ℕ → Option (Graph V × List ℕ)) (acc : Graph V × List ℕ)
      → collect_each go [] acc ≡ some acc
  unfolding collect_each
  collect_each-nil go acc = refl

  pub collect_memo-live :
      (go : Subscriber → Graph V × List ℕ → Option (Graph V × List ℕ)) (m : ℕ) (st : MemoState V)
      (g : Graph V) (q : List ℕ)
      → st.disposed ≡ false
      → collect_memo go m (some st) (g, q)
        ≡ collect_each go st.subscribers (set_memo g m (marked st), q)
  unfolding collect_memo
  collect_memo-live go m st g q d = if_false st.disposed _ _ d

  pub collect_memo-disposed :
      (go : Subscriber → Graph V × List ℕ → Option (Graph V × List ℕ)) (m : ℕ) (st : MemoState V)
      (g : Graph V) (q : List ℕ)
      → st.disposed ≡ true
      → collect_memo go m (some st) (g, q) ≡ some (g, q)
  unfolding collect_memo
  collect_memo-disposed go m st g q d = if_true st.disposed _ _ d

  pub collect_memo-none :
      (go : Subscriber → Graph V × List ℕ → Option (Graph V × List ℕ)) (m : ℕ)
      (acc : Graph V × List ℕ)
      → collect_memo go m none acc ≡ some acc
  unfolding collect_memo
  collect_memo-none go m acc = refl

  pub collect_each-Collects :
      (go : Subscriber → Graph V × List ℕ → Option (Graph V × List ℕ)) (n : ℕ)
      (ss : List Subscriber) (acc : Graph V × List ℕ)
      → ((s : Subscriber) (acc : Graph V × List ℕ) → open_memos acc.0 < n → Collects acc (go s acc))
      → open_memos acc.0 < n
      → Collects acc (collect_each go ss acc)
  unfolding collect_each
  collect_each-Collects go n [] acc w l = (acc, refl, omega arith, Marks-refl acc.0)
  collect_each-Collects go n (s ∷ ss) acc w l =
      let (acc1, r1, l1, h1) = w s acc l in
      let (acc2, r2, l2, h2) = collect_each-Collects go n ss acc1 w (omega (arith, l1, l)) in
      (
        acc2,
        collect_each-cons go s ss acc acc1 r1 ∙ r2,
        omega (arith, l1, l2),
        Marks-trans acc.0 acc1.0 acc2.0 h1 h2,
      )

  collect_memo-Collects :
      (go : Subscriber → Graph V × List ℕ → Option (Graph V × List ℕ)) (n m : ℕ)
      (acc : Graph V × List ℕ)
      → ((s : Subscriber) (acc : Graph V × List ℕ) → open_memos acc.0 < n → Collects acc (go s acc))
      → open_memos acc.0 < suc n
      → Collects acc (collect_memo go m (get_elem? acc.0.memos m) acc)
  collect_memo-Collects go n m (g, q) w l = elim (Option-cases (get_elem? g.memos m)) [
    | inl missing ↦ rw missing ((g, q), collect_memo-none go m (g, q), omega arith, Marks-refl g)
    | inr (st, e) ↦ rw e (found st e (Bool-cases st.disposed) st.subscribers refl)
  ]
    where
      found :
          (st : MemoState V)
          → get_elem? g.memos m ≡ some st
          → (st.disposed ≡ true) ⊎ (st.disposed ≡ false)
          → (ss : List Subscriber) → st.subscribers ≡ ss
          → Collects (g, q) (collect_memo go m (some st) (g, q))
      found st e (inl d) ss h =
          ((g, q), collect_memo-disposed go m st g q d, omega arith, Marks-refl g)
      found st e (inr d) [] h = (
        (set_memo g m (marked st), q),
        collect_memo-live go m st g q d
            ∙ ap (λ ss. collect_each go ss (set_memo g m (marked st), q)) h
            ∙ collect_each-nil go (set_memo g m (marked st), q),
        omega (arith, sum_of-marked g.memos m st e),
        set_memo-Marks g m st e,
      )
      found st e (inr d) (s ∷ ss) h =
          let one : has_subscribers st ≡ 1 = rw h refl in
          let fewer = sum_of-marked g.memos m st e in
          let (acc', r, l', h') =
            collect_each-Collects go n st.subscribers (set_memo g m (marked st), q) w
              (omega (arith, l, one, fewer)) in
          (
            acc',
            collect_memo-live go m st g q d ∙ r,
            omega (arith, l', fewer),
            Marks-trans g (set_memo g m (marked st)) acc'.0 (set_memo-Marks g m st e) h',
          )

  pub collect_dependents-Collects :
      (fuel : ℕ) (s : Subscriber) (acc : Graph V × List ℕ)
      → open_memos acc.0 < fuel
      → Collects acc (collect_dependents fuel s acc)
  unfolding collect_dependents
  collect_dependents-Collects zero s acc l = absurd (omega (arith, l))
  collect_dependents-Collects (suc fuel) (effect e) (g, q) l = (_, refl, omega arith, Marks-refl g)
  collect_dependents-Collects (suc fuel) (memo m) (g, q) l =
      collect_memo-Collects (collect_dependents fuel) fuel m (g, q)
        (collect_dependents-Collects fuel) l
