-- ===== src/Signal/Creating.antt =====
-- Making a signal or a memo keeps what is up to date.
use krab_pub.Common.{
  ℕ, suc, ◌≡◌, sym, ap, refl, Bool, true, false, List, [], ◌∷◌, ◌++◌, none, some, inl, inr, ◌==◌,
  if◌then◌else◌, length, length-append, get_elem?, arith, get_elem?-set, get_elem?-append,
  get_elem?-lt, Bool-cases,
}
use krab_pub.Signal.{
  Subscriber, memo, Reads, done, read_signal, read_memo, SignalState, MemoState, Graph, set_memo,
  get_memo, create_signal, create_memo,
}
use krab_pub.Signal.Fresh.{Fresh}
use krab_pub.Signal.Tracking.{IsBelow, IsCurrent, IsQuiet}
use krab_pub.Signal.Recompute.{started, Recomputed, recompute_now-Recomputed}
use krab_pub.Signal.Memo.{get_memo-Readable}
use krab_pub.Signal.Reference.{IsBelow-le}

-- The node lists with one more at the end.
get_elem?-more :
    {A : Type 0} (xs : List A) (j : ℕ) (v x : A)
    → get_elem? xs j ≡ some x
    → get_elem? (xs ++ v ∷ []) j ≡ some x
get_elem?-more xs j v x e = ground (arith, get_elem?-append xs j v, get_elem?-lt xs j x e)

module _ {V : Type 0} where
  -- All that there was is there as it was.
  record Extends (g g' : Graph V) : Type 0 where
    pub signals :
        (i : ℕ) (st : SignalState V)
        → get_elem? g.signals i ≡ some st
        → get_elem? g'.signals i ≡ some st
    pub memos :
        (m : ℕ) (st : MemoState V) → get_elem? g.memos m ≡ some st → get_elem? g'.memos m ≡ some st

  Fresh-Extends :
      (g g' : Graph V) (s : Subscriber) (t : Reads V) (v : V)
      → Extends g g'
      → Fresh g s t v
      → Fresh g' s t v
  Fresh-Extends g g' s (done x) v h f = f
  Fresh-Extends g g' s (read_signal i k) v h (st, e, sub, f) =
      (st, h.signals i st e, sub, Fresh-Extends g g' s (k st.value) v h f)
  Fresh-Extends g g' s (read_memo m k) v h (st, x, e, val, settled, f) =
      (st, x, h.memos m st e, val, settled, Fresh-Extends g g' s (k x) v h f)

  pub create_signal-IsCurrent : (v : V) (g : Graph V) → IsCurrent g → IsCurrent (create_signal v g)
  unfolding create_signal
  create_signal-IsCurrent v g c = record {
    ordered = λ m st e.
        IsBelow-le (length g.signals) (length (create_signal v g).signals) m m st.compute
          (omega (arith, length-append g.signals (fresh_state ∷ []))) (omega arith)
          (c.ordered m st e);
    valued = c.valued;
    fresh = λ m st e d k n.
        let (w, val, f) = c.fresh m st e d k n in
        (
          w,
          val,
          Fresh-Extends g (create_signal v g) (memo m) st.compute w
              (record {
                signals = λ i si ei. get_elem?-more g.signals i fresh_state si ei;
                memos = λ j sj ej. ej;
              })
              f,
        );
  }
    where
      fresh_state : SignalState V
      fresh_state = record { value = v; subscribers = [] }

  pub create_signal-Fresh :
      (v : V) (g : Graph V) (s : Subscriber) (t : Reads V) (w : V)
      → Fresh g s t w
      → Fresh (create_signal v g) s t w
  unfolding create_signal
  create_signal-Fresh v g s t w f =
      Fresh-Extends g (create_signal v g) s t w
        (record { signals = λ i si ei. get_elem?-more g.signals i _ si ei; memos = λ j sj ej. ej })
        f

  -- One more memo, still in its computation.
  added-IsCurrent :
      (g g' : Graph V) (st : MemoState V)
      → IsBelow (length g.signals) (length g.memos) st.compute
      → st.computing ≡ true
      → g'.signals ≡ g.signals
      → ((j : ℕ)
          → get_elem? g'.memos j ≡ (if j == length g.memos then some st else get_elem? g.memos j))
      → IsCurrent g
      → IsCurrent g'
  added-IsCurrent g g' st below busy same at c = record {
    ordered = λ m sm em. rw same (elim (Bool-cases (m == length g.memos)) [
      | inl last ↦
          let q : st ≡ sm = ground (arith, at m) in
          let p : length g.memos ≡ m = ground arith in rw (sym q, sym p) below
      | inr old ↦ c.ordered m sm (ground (arith, at m))
    ]);
    valued = λ m sm em n. elim (Bool-cases (m == length g.memos)) [
      | inl last ↦
          let q : st ≡ sm = ground (arith, at m) in absurd (ground (arith, ap computing_of q))
      | inr old ↦ c.valued m sm (ground (arith, at m)) n
    ];
    fresh = λ m sm em d k n. elim (Bool-cases (m == length g.memos)) [
      | inl last ↦
          let q : st ≡ sm = ground (arith, at m) in absurd (ground (arith, ap computing_of q))
      | inr old ↦
          let (w, val, f) = c.fresh m sm (ground (arith, at m)) d k n in
          (w, val, Fresh-Extends g g' (memo m) sm.compute w extends f)
    ];
  }
    where
      computing_of : MemoState V → Bool
      computing_of x = x.computing

      extends : Extends g g'
      extends = record {
        signals = λ i si ei. rw same ei;
        memos = λ j sj ej. ground (arith, at j, get_elem?-lt g.memos j sj ej);
      }

  abbrev pub IsAtRest : Graph V → Type 0
  IsAtRest g = IsQuiet (length g.memos) g

  abbrev new_memo : Reads V → MemoState V
  new_memo t = record {
    compute = t;
    value = none;
    dirty = true;
    computing = false;
    subscribers = [];
    disposed = false;
  }

  abbrev pub with_memo : Reads V → Graph V → Graph V
  with_memo t g = record g { memos = g.memos ++ new_memo t ∷ [] }

  pub with_memo-Fresh :
      (t' : Reads V) (g : Graph V) (s : Subscriber) (t : Reads V) (w : V)
      → Fresh g s t w
      → Fresh (with_memo t' g) s t w
  with_memo-Fresh t' g s t w f =
      Fresh-Extends g (with_memo t' g) s t w
        (record {
          signals = λ i si ei. ei;
          memos = λ j sj ej. get_elem?-more g.memos j (new_memo t') sj ej;
        })
        f

  -- A memo is computed as it is made.
  pub create_memo-Recomputed :
      (t : Reads V) (g : Graph V)
      → IsBelow (length g.signals) (length g.memos) t
      → IsCurrent g
      → IsAtRest g
      → IsAtRest (with_memo t g) × Recomputed (with_memo t g) (length g.memos) (create_memo t g)
  unfolding create_memo
  create_memo-Recomputed t g below c q = (
    quiet,
    recompute_now-Recomputed (get_memo (length g.memos)) (length g.memos) (new_memo t)
        (with_memo t g) (get_memo-Readable (length g.memos)) last refl refl refl
        (added-IsCurrent g (set_memo (with_memo t g) (length g.memos) (started (new_memo t)))
          (started (new_memo t)) below refl refl
          (λ j. ground (
            arith,
            get_elem?-set (g.memos ++ new_memo t ∷ []) (length g.memos) j (new_memo t)
                (started (new_memo t)) last,
            get_elem?-append g.memos j (new_memo t),
          ))
          c)
        (λ j sj l ej. quiet j sj (omega (arith, l, longer)) ej),
  )
    where
      last : get_elem? (g.memos ++ new_memo t ∷ []) (length g.memos) ≡ some (new_memo t)
      last = ground (arith, get_elem?-append g.memos (length g.memos) (new_memo t))

      longer : length (g.memos ++ new_memo t ∷ []) ≡ suc (length g.memos)
      longer = omega (arith, length-append g.memos (new_memo t ∷ []))

      quiet : IsAtRest (with_memo t g)
      quiet j sj l ej = elim (Bool-cases (j == length g.memos)) [
        | inl here ↦
            let p : new_memo t ≡ sj = ground (arith, get_elem?-append g.memos j (new_memo t)) in
            sym (ap (λ x. x.computing) p)
        | inr old ↦
            let e : get_elem? g.memos j ≡ some sj =
              ground (arith, get_elem?-append g.memos j (new_memo t)) in
            q j sj (get_elem?-lt g.memos j sj e) e
      ]
