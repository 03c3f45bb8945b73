-- ===== src/Signal/Reference.antt =====
-- What a memo's value is, computed from the signals with no cache: the reference for `Memo::get`.
use krab_pub.Common.{
  ℕ, zero, suc, ◌<◌, ◌≤◌, ◌≡◌, ◌∙◌, sym, ap, refl, true, false, Option, none, some, ◌⊎◌, inl, inr,
  if◌then◌else◌, length, get_elem?, arith, get_elem?-some, get_elem?-lt, Bool-cases, Option-cases,
  if_true, if_false,
}
use krab_pub.Signal.{
  Subscriber, memo, Reads, done, read_signal, read_memo, SignalState, MemoState, Graph, get_memo,
  value_of,
}
use krab_pub.Signal.Fresh.{IsSettled, Fresh, MemoGrows, Grows}
use krab_pub.Signal.Tracking.{IsBelow, IsCurrent, IsQuiet, Grows-memo, IsLive}
use krab_pub.Signal.Computing.{IsReadBy}
use krab_pub.Signal.Memo.{get_memo-Readable}

module _ {V : Type 0} where
  -- The result of a closure, given the values of the memos.
  unfoldable pub evaluate : (ℕ → Option V) → Graph V → Reads V → Option V
  evaluate memo_at g (done v) = some v
  evaluate memo_at g (read_signal i k) = elim (get_elem? g.signals i) [
    | none ↦ none
    | some st ↦ evaluate memo_at g (k st.value)
  ]
  evaluate memo_at g (read_memo m k) = elim (memo_at m) [
    | none ↦ none
    | some v ↦ evaluate memo_at g (k v)
  ]

  -- A disposed memo keeps its last value; any other is computed afresh.
  unfoldable pub memo_value : ℕ → Graph V → ℕ → Option V
  unfolding evaluate
  memo_value zero g m = none
  memo_value (suc depth) g m = elim (get_elem? g.memos m) as (λ _. Option V) [
    | none ↦ none
    | some st ↦ if st.disposed then st.value else evaluate (memo_value depth g) g st.compute
  ]

  pub IsBelow-le : (s s' n n' : ℕ) (t : Reads V) → s ≤ s' → n ≤ n' → IsBelow s n t → IsBelow s' n' t
  IsBelow-le s s' n n' (done v) l l' b = tt
  IsBelow-le s s' n n' (read_signal i k) l l' b =
      (omega (arith, b.0, l), λ v. IsBelow-le s s' n n' (k v) l l' (b.1 v))
  IsBelow-le s s' n n' (read_memo m k) l l' b =
      (omega (arith, b.0, l'), λ v. IsBelow-le s s' n n' (k v) l l' (b.1 v))

  evaluate-signal :
      (memo_at : ℕ → Option V) (g : Graph V) (i : ℕ) (k : V → Reads V) (st : SignalState V)
      → get_elem? g.signals i ≡ some st
      → evaluate memo_at g (read_signal i k) ≡ evaluate memo_at g (k st.value)
  unfolding evaluate
  evaluate-signal memo_at g i k st e = rw (e, evaluate) refl

  evaluate-memo :
      (memo_at : ℕ → Option V) (g : Graph V) (m : ℕ) (k : V → Reads V) (v : V)
      → memo_at m ≡ some v
      → evaluate memo_at g (read_memo m k) ≡ evaluate memo_at g (k v)
  unfolding evaluate
  evaluate-memo memo_at g m k v e = rw (e, evaluate) refl

  memo_value-live :
      (depth : ℕ) (g : Graph V) (m : ℕ) (st : MemoState V)
      → get_elem? g.memos m ≡ some st
      → st.disposed ≡ false
      → memo_value (suc depth) g m ≡ evaluate (memo_value depth g) g st.compute
  unfolding memo_value
  memo_value-live depth g m st e d = rw (e, memo_value) (if_false st.disposed _ _ d)

  memo_value-disposed :
      (depth : ℕ) (g : Graph V) (m : ℕ) (st : MemoState V)
      → get_elem? g.memos m ≡ some st
      → st.disposed ≡ true
      → memo_value (suc depth) g m ≡ st.value
  unfolding memo_value
  memo_value-disposed depth g m st e d = rw (e, memo_value) (if_true st.disposed _ _ d)

  -- The cache of the memo may be served.
  abbrev IsServed : MemoState V → Type 0
  IsServed st = (st.disposed ≡ true) ⊎ ((st.dirty ≡ false) × (st.computing ≡ false))

  evaluate-Fresh :
      (n : ℕ) (g : Graph V) (s : Subscriber) (t : Reads V) (v : V)
      → ((m : ℕ) (st : MemoState V)
          → m < n
          → get_elem? g.memos m ≡ some st
          → IsServed st
          → memo_value n g m ≡ st.value)
      → IsBelow (length g.signals) n t
      → Fresh g s t v
      → evaluate (memo_value n g) g t ≡ some v
  unfolding evaluate
  evaluate-Fresh n g s (done x) v h b f = ap some f
  evaluate-Fresh n g s (read_signal i k) v h b (st, e, sub, f) =
      evaluate-signal (memo_value n g) g i k st e
      ∙ evaluate-Fresh n g s (k st.value) v h (b.1 st.value) f
  evaluate-Fresh n g s (read_memo m k) v h b (st, x, e, val, settled, f) =
      evaluate-memo (memo_value n g) g m k x (h m st b.0 e (serves settled) ∙ val)
      ∙ evaluate-Fresh n g s (k x) v h (b.1 x) f
    where
      serves : IsSettled s st → IsServed st
      serves (inl d) = inl d
      serves (inr (k, n, sub)) = inr (k, n)

  -- A cache that may be served holds what the reference gives.
  pub memo_value-served :
      (n : ℕ) (g : Graph V) (m : ℕ) (st : MemoState V)
      → IsCurrent g
      → m < n
      → get_elem? g.memos m ≡ some st
      → IsServed st
      → memo_value n g m ≡ st.value
  memo_value-served zero g m st c l e serves = absurd (omega (arith, l))
  memo_value-served (suc n) g m st c l e serves = elim (Bool-cases st.disposed) [
    | inl d ↦ memo_value-disposed n g m st e d
    | inr d ↦
        let (v, val, f) = c.fresh m st e d (clean d serves).0 (clean d serves).1 in
        memo_value-live n g m st e d
        ∙ evaluate-Fresh n g (memo m) st.compute v
            (λ j sj lj ej sv. memo_value-served n g j sj c lj ej sv)
            (IsBelow-le (length g.signals) (length g.signals) m n st.compute (omega arith)
              (omega (arith, l)) (c.ordered m st e))
            f
        ∙ sym val
  ]
    where
      clean : st.disposed ≡ false → IsServed st → (st.dirty ≡ false) × (st.computing ≡ false)
      clean d (inl d') = absurd (ground arith)
      clean d (inr kn) = kn

  -- An up-to-date result is the reference's.
  pub evaluate-current :
      (g : Graph V) (s : Subscriber) (t : Reads V) (v : V)
      → IsCurrent g
      → IsBelow (length g.signals) (length g.memos) t
      → Fresh g s t v
      → evaluate (memo_value (length g.memos) g) g t ≡ some v
  evaluate-current g s t v c b f =
      evaluate-Fresh (length g.memos) g s t v
        (λ m st l e serves. memo_value-served (length g.memos) g m st c l e serves) b f

  evaluate_memo-congr :
      (a b : ℕ → Option V) (g g' : Graph V) (m : ℕ) (k : V → Reads V)
      → ((x : V) → evaluate a g (k x) ≡ evaluate b g' (k x))
      → a m ≡ b m
      → evaluate a g (read_memo m k) ≡ evaluate b g' (read_memo m k)
  unfolding evaluate
  evaluate_memo-congr a b g g' m k h same = elim (Option-cases (a m)) [
    | inl none_a ↦ rw (none_a, evaluate, sym same ∙ none_a) refl
    | inr (x, some_a) ↦
        evaluate-memo a g m k x some_a ∙ h x ∙ sym (evaluate-memo b g' m k x (sym same ∙ some_a))
  ]

  evaluate-congr :
      (a b : ℕ → Option V) (g g' : Graph V) (t : Reads V)
      → Grows g g'
      → ((m : ℕ) → a m ≡ b m)
      → IsBelow (length g.signals) (length g.memos) t
      → evaluate a g t ≡ evaluate b g' t
  unfolding evaluate
  evaluate-congr a b g g' (done v) h same l = refl
  evaluate-congr a b g g' (read_signal i k) h same l =
      let (st, e) = get_elem?-some g.signals i l.0 in
      let (st', e', r) = h.signals i st e in
      evaluate-signal a g i k st e
      ∙ evaluate-congr a b g g' (k st.value) h same (l.1 st.value)
      ∙ ap (λ x. evaluate b g' (k x)) (sym r.value)
      ∙ sym (evaluate-signal b g' i k st' e')
  evaluate-congr a b g g' (read_memo m k) h same l =
      evaluate_memo-congr a b g g' m k (λ x. evaluate-congr a b g g' (k x) h same (l.1 x)) (same m)

  memo_value-congr :
      (n : ℕ) (g g' : Graph V) (m : ℕ)
      → Grows g g'
      → IsCurrent g
      → memo_value n g m ≡ memo_value n g' m
  unfolding memo_value
  memo_value-congr zero g g' m h c = refl
  memo_value-congr (suc n) g g' m h c =
      found (λ j. memo_value-congr n g g' j h c) (Option-cases (get_elem? g.memos m))
    where
      found :
          ((j : ℕ) → memo_value n g j ≡ memo_value n g' j)
          → (get_elem? g.memos m ≡ none) ⊎ ((st : MemoState V) × (get_elem? g.memos m ≡ some st))
          → memo_value (suc n) g m ≡ memo_value (suc n) g' m
      found w (inl missing) = elim (Option-cases (get_elem? g'.memos m)) [
        | inl missing' ↦ rw (missing, missing', memo_value) refl
        | inr (st', e') ↦ let (st, e, r) = Grows-memo g g' m st' h e' in absurd (ground arith)
      ]
      found w (inr (st, e)) = moved (h.memos m st e) (Bool-cases st.disposed)
        where
          moved :
              ((st' : MemoState V) × (get_elem? g'.memos m ≡ some st') × MemoGrows g st st')
              → (st.disposed ≡ true) ⊎ (st.disposed ≡ false)
              → memo_value (suc n) g m ≡ memo_value (suc n) g' m
          moved (st', e', r) (inl d) =
              memo_value-disposed n g m st e d
              ∙ sym (r.frozen d)
              ∙ sym (memo_value-disposed n g' m st' e' (r.disposed ∙ d))
          moved (st', e', r) (inr d) =
              memo_value-live n g m st e d
              ∙ evaluate-congr (memo_value n g) (memo_value n g') g g' st.compute h w (
                  IsBelow-le (length g.signals) (length g.signals) m (length g.memos) st.compute
                    (omega arith) (omega (arith, get_elem?-lt g.memos m st e)) (c.ordered m st e))
              ∙ ap (evaluate (memo_value n g') g') (sym r.compute)
              ∙ sym (memo_value-live n g' m st' e' (r.disposed ∙ d))

  IsServed-IsReadBy :
      (current : Option Subscriber) (st : MemoState V) → IsReadBy current st → IsServed st
  IsServed-IsReadBy none st r = r
  IsServed-IsReadBy (some s) st (inl d) = inl d
  IsServed-IsReadBy (some s) st (inr (k, n, sub)) = inr (k, n)

  -- A read gives what the reference gives on the graph before it.
  pub get_memo-memo_value :
      (current : Option Subscriber) (m : ℕ) (g : Graph V)
      → m < length g.memos
      → IsLive g current
      → IsCurrent g
      → IsQuiet (suc m) g
      → (g' : Graph V) × (v : V) × (get_memo (length g.memos) current m g ≡ value_of g' v)
        × (memo_value (length g.memos) g m ≡ some v)
        × Grows g g'
        × IsCurrent g'
  get_memo-memo_value current m g l live c q =
      let (g', v, r, h, c', (st, e, val, read)) =
        get_memo-Readable (length g.memos) current m g l l live c q in
      (
        g',
        v,
        r,
        memo_value-congr (length g.memos) g g' m h c
            ∙ memo_value-served (length g.memos) g' m st c' l e (IsServed-IsReadBy current st read)
            ∙ val,
        h,
        c',
      )
