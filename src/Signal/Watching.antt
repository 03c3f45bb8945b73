-- ===== src/Signal/Watching.antt =====
-- `collect_dependents` reaches every node that could be out of date.
use krab_pub.Common.{
  ℕ, zero, suc, ◌<◌, ◌≤◌, ◌≡◌, ◌≢◌, ◌∙◌, sym, ap, refl, true, false, List, [], ◌∷◌, Option, none,
  some, ◌⊎◌, inl, inr, ◌==◌, if◌then◌else◌, if_true, get_elem?, arith, get_elem?-set, Bool-cases,
  Option-cases,
}
use krab_pub.Signal.{
  Subscriber, effect, memo, same_node, subscribed, Reads, done, read_signal, read_memo, MemoState,
  Graph, set_memo, runs_again, push_unique, collect_each, collect_memo, collect_dependents,
  has_subscribers,
}
use krab_pub.Signal.Fresh.{same_node_iff, IsSettled, Fresh}
use krab_pub.Signal.Marking.{
  sum_of-marked, queued, queued-push_unique, Marks, Marks-refl, Marks-trans, marked, set_memo-Marks,
  open_memos, collect_each-nil, collect_each-cons, collect_memo-live, collect_memo-disposed,
  collect_memo-none,
}

module _ {V : Type 0} where
  abbrev pub IsMarked : Subscriber → Graph V × List ℕ → Type 0
  IsMarked (memo m) (g, q) =
      (st : MemoState V) × (get_elem? g.memos m ≡ some st) × (st.dirty ≡ true)
  IsMarked (effect e) (g, q) = queued e q ≡ true

  -- Not disposed, and for an effect not dropped.
  abbrev pub IsActive : Subscriber → Graph V → Type 0
  IsActive (memo m) g = (st : MemoState V) × (get_elem? g.memos m ≡ some st) × (st.disposed ≡ false)
  IsActive (effect e) g = runs_again (get_elem? g.effects e) ≡ true

  IsActive-Marks : (s : Subscriber) (g g' : Graph V) → Marks g g' → IsActive s g → IsActive s g'
  IsActive-Marks (effect e) g g' h a = rw h.effects a
  IsActive-Marks (memo m) g g' h (st, e, d) =
      let (st', e', r) = h.memos m st e in (st', e', r.disposed ∙ d)

  -- For one node, what it read and what that gave.
  module _ (s : Subscriber) (t : Reads V) (v : V) where
    -- The node is marked, or accounted for elsewhere, or up to date.
    abbrev pub Watched : Type 0 → Graph V × List ℕ → Type 0
    Watched Rest acc = IsMarked s acc ⊎ (Rest ⊎ Fresh acc.0 s t v)

    IsMarked-set_memo :
        (s : Subscriber) (g : Graph V) (q : List ℕ) (m : ℕ) (st : MemoState V)
        → get_elem? g.memos m ≡ some st
        → IsMarked s (g, q)
        → IsMarked s (set_memo g m (marked st), q)
    IsMarked-set_memo (effect e) g q m st em i = i
    IsMarked-set_memo (memo j) g q m st em (sj, ej, d) =
        let (sj', ej', r) = (set_memo-Marks g m st em).memos j sj ej in (sj', ej', r.dirty d)

    -- A reader of the memo is among its subscribers.
    Fresh-marked :
        (t : Reads V) (g : Graph V) (m : ℕ) (st : MemoState V)
        → get_elem? g.memos m ≡ some st
        → st.disposed ≡ false
        → Fresh g s t v
        → (subscribed s st.subscribers ≡ true) ⊎ Fresh (set_memo g m (marked st)) s t v
    Fresh-marked (done x) g m st e d f = inr f
    Fresh-marked (read_signal i k) g m st e d (si, ei, sub, f) =
        elim (Fresh-marked (k si.value) g m st e d f) [
          | inl h ↦ inl h
          | inr h ↦ inr (si, ei, sub, h)
        ]
    Fresh-marked (read_memo j k) g m st e d (sj, x, ej, val, settled, f) =
        elim (Bool-cases (m == j)) [
          | inl same ↦ inl (heard settled same)
          | inr other ↦ elim (Fresh-marked (k x) g m st e d f) [
            | inl h ↦ inl h
            | inr h ↦
                inr
                  (sj, x, get_elem?-set g.memos m j st (marked st) e ∙ rw other ej, val, settled, h)
          ]
        ]
      where
        heard : IsSettled s sj → (m == j) ≡ true → subscribed s st.subscribers ≡ true
        heard settled same = ground arith

    Watched-marked :
        (Rest : Type 0) (g : Graph V) (q : List ℕ) (m : ℕ) (st : MemoState V)
        → get_elem? g.memos m ≡ some st
        → st.disposed ≡ false
        → Watched ((memo m ≡ s) ⊎ Rest) (g, q)
        → Watched ((subscribed s st.subscribers ≡ true) ⊎ Rest) (set_memo g m (marked st), q)
    Watched-marked Rest g q m st e d (inl i) = inl (IsMarked-set_memo s g q m st e i)
    Watched-marked Rest g q m st e d (inr (inl (inr r))) = inr (inl (inr r))
    Watched-marked Rest g q m st e d (inr (inl (inl here))) = inl (
        rw (sym here) (
          marked st,
          get_elem?-set g.memos m m st (marked st) e ∙ if_true (m == m) _ _ (ground arith),
          refl,
        ))
    Watched-marked Rest g q m st e d (inr (inr f)) = elim (Fresh-marked t g m st e d f) [
      | inl h ↦ inr (inl (inl h))
      | inr h ↦ inr (inr h)
    ]

    -- A walk that comes back has accounted for the node where it was to.
    abbrev pub Follows : Type 0 → Type 0 → Graph V × List ℕ → Option (Graph V × List ℕ) → Type 0
    Follows Before Rest acc r =
        IsActive s acc.0
        → Watched (Before ⊎ Rest) acc
        → (acc' : Graph V × List ℕ) × (r ≡ some acc')
          × (open_memos acc'.0 ≤ open_memos acc.0)
          × Marks acc.0 acc'.0
          × Watched Rest acc'

    abbrev pub FollowsBelow :
        ℕ → (Subscriber → Graph V × List ℕ → Option (Graph V × List ℕ)) → Type 1
    FollowsBelow n go =
        (Rest : Type 0) (x : Subscriber) (acc : Graph V × List ℕ)
        → open_memos acc.0 < n
        → Follows (x ≡ s) Rest acc (go x acc)

    pub collect_each-Follows :
        (go : Subscriber → Graph V × List ℕ → Option (Graph V × List ℕ)) (n : ℕ)
        (ss : List Subscriber) (Rest : Type 0) (acc : Graph V × List ℕ)
        → FollowsBelow n go
        → open_memos acc.0 < n
        → Follows (subscribed s ss ≡ true) Rest acc (collect_each go ss acc)
    collect_each-Follows go n [] Rest acc w l active watched =
        (acc, collect_each-nil go acc, omega arith, Marks-refl acc.0, rest watched)
      where
        rest : Watched ((false ≡ true) ⊎ Rest) acc → Watched Rest acc
        rest (inl i) = inl i
        rest (inr (inl (inl h))) = absurd (ground arith)
        rest (inr (inl (inr r))) = inr (inl r)
        rest (inr (inr f)) = inr (inr f)
    collect_each-Follows go n (x ∷ ss) Rest acc w l active watched =
        let (acc1, r1, l1, h1, watched1) =
          w ((subscribed s ss ≡ true) ⊎ Rest) x acc l active (split watched) in
        let (acc2, r2, l2, h2, watched2) =
          collect_each-Follows go n ss Rest acc1 w (omega (arith, l1, l))
            (IsActive-Marks s acc.0 acc1.0 h1 active) watched1 in
        (
          acc2,
          collect_each-cons go x ss acc acc1 r1 ∙ r2,
          omega (arith, l1, l2),
          Marks-trans acc.0 acc1.0 acc2.0 h1 h2,
          watched2,
        )
      where
        split :
            Watched ((subscribed s (x ∷ ss) ≡ true) ⊎ Rest) acc
            → Watched ((x ≡ s) ⊎ ((subscribed s ss ≡ true) ⊎ Rest)) acc
        split (inl i) = inl i
        split (inr (inl (inr r))) = inr (inl (inr (inr r)))
        split (inr (inr f)) = inr (inr f)
        split (inr (inl (inl h))) = elim (Bool-cases (same_node x s)) [
          | inl same ↦ inr (inl (inl ((same_node_iff x s).0 same)))
          | inr other ↦ inr (inl (inr (inl (ground arith))))
        ]

    disposed_elsewhere :
        (g : Graph V) (m : ℕ) (st : MemoState V)
        → get_elem? g.memos m ≡ some st
        → st.disposed ≡ true
        → IsActive s g
        → memo m ≢ s
    disposed_elsewhere g m st e d active here = go s here active
      where
        go : (x : Subscriber) → memo m ≡ x → IsActive x g → ⊥
        go (effect j) h a = ground arith
        go (memo j) h (sj, ej, dj) = let same : m ≡ j = ground arith in ground (arith, same)

    elsewhere :
        (Before Rest : Type 0) (acc : Graph V × List ℕ)
        → ¬ Before
        → Watched (Before ⊎ Rest) acc
        → Watched Rest acc
    elsewhere Before Rest acc n (inl i) = inl i
    elsewhere Before Rest acc n (inr (inl (inl h))) = absurd (n h)
    elsewhere Before Rest acc n (inr (inl (inr r))) = inr (inl r)
    elsewhere Before Rest acc n (inr (inr f)) = inr (inr f)

    collect_memo-Follows :
        (go : Subscriber → Graph V × List ℕ → Option (Graph V × List ℕ)) (n m : ℕ) (Rest : Type 0)
        (g : Graph V) (q : List ℕ)
        → FollowsBelow n go
        → open_memos g < suc n
        → Follows (memo m ≡ s) Rest (g, q) (collect_memo go m (get_elem? g.memos m) (g, q))
    collect_memo-Follows go n m Rest g q w l active watched =
        elim (Option-cases (get_elem? g.memos m)) [
          | inl missing ↦ rw missing (
            (g, q),
            collect_memo-none go m (g, q),
            omega arith,
            Marks-refl g,
            elsewhere (memo m ≡ s) Rest (g, q) (absent missing s active) watched,
          )
          | inr (st, e) ↦ rw e (found st e (Bool-cases st.disposed) st.subscribers refl)
        ]
      where
        absent : get_elem? g.memos m ≡ none → (x : Subscriber) → IsActive x g → memo m ≢ x
        absent missing (effect j) a here = ground arith
        absent missing (memo j) (sj, ej, dj) here =
            let same : m ≡ j = ground arith in ground (arith, same)

        found :
            (st : MemoState V)
            → get_elem? g.memos m ≡ some st
            → (st.disposed ≡ true) ⊎ (st.disposed ≡ false)
            → (ss : List Subscriber) → st.subscribers ≡ ss
            → (acc' : Graph V × List ℕ) × (collect_memo go m (some st) (g, q) ≡ some acc')
              × (open_memos acc'.0 ≤ open_memos g)
              × Marks g acc'.0
              × Watched Rest acc'
        found st e (inl d) ss h = (
          (g, q),
          collect_memo-disposed go m st g q d,
          omega arith,
          Marks-refl g,
          elsewhere (memo m ≡ s) Rest (g, q) (disposed_elsewhere g m st e d active) watched,
        )
        found st e (inr d) [] h =
            let seen = Watched-marked Rest g q m st e d watched in
            (
              (set_memo g m (marked st), q),
              collect_memo-live go m st g q d
                  ∙ ap (λ ss. collect_each go ss (set_memo g m (marked st), q)) h
                  ∙ collect_each-nil go (set_memo g m (marked st), q),
              omega (arith, sum_of-marked g.memos m st e),
              set_memo-Marks g m st e,
              elsewhere (subscribed s st.subscribers ≡ true) Rest (set_memo g m (marked st), q)
                  (λ i. ground arith) seen,
            )
        found st e (inr d) (x ∷ ss) h =
            let one : has_subscribers st ≡ 1 = rw h refl in
            let fewer = sum_of-marked g.memos m st e in
            let (acc', r, l', h', watched') =
              collect_each-Follows go n st.subscribers Rest (set_memo g m (marked st), q) w
                (omega (arith, l, one, fewer))
                (IsActive-Marks s g (set_memo g m (marked st)) (set_memo-Marks g m st e) active)
                (Watched-marked Rest g q m st e d watched) in
            (
              acc',
              collect_memo-live go m st g q d ∙ r,
              omega (arith, l', fewer),
              Marks-trans g (set_memo g m (marked st)) acc'.0 (set_memo-Marks g m st e) h',
              watched',
            )

    queue_effect : (e : ℕ) (g : Graph V) (q : List ℕ) → List ℕ
    queue_effect e g q = if runs_again (get_elem? g.effects e) then push_unique e q else q

    IsMarked-queue_effect :
        (x : Subscriber) (e : ℕ) (g : Graph V) (q : List ℕ)
        → IsMarked x (g, q)
        → IsMarked x (g, queue_effect e g q)
    unfolding queue_effect
    IsMarked-queue_effect (memo m) e g q i = i
    IsMarked-queue_effect (effect j) e g q i = ground (arith, queued-push_unique j e q)

    queue_effect-marks :
        (x : Subscriber) (e : ℕ) (g : Graph V) (q : List ℕ)
        → effect e ≡ x
        → IsActive x g
        → IsMarked x (g, queue_effect e g q)
    unfolding queue_effect
    queue_effect-marks (memo m) e g q here a = absurd (ground arith)
    queue_effect-marks (effect j) e g q here a =
        let same : e ≡ j = ground arith in ground (arith, queued-push_unique j e q, same)

    Watched-queue_effect :
        (Rest : Type 0) (e : ℕ) (g : Graph V) (q : List ℕ)
        → IsActive s g
        → Watched ((effect e ≡ s) ⊎ Rest) (g, q)
        → Watched Rest (g, queue_effect e g q)
    Watched-queue_effect Rest e g q a (inl i) = inl (IsMarked-queue_effect s e g q i)
    Watched-queue_effect Rest e g q a (inr (inl (inl here))) =
        inl (queue_effect-marks s e g q here a)
    Watched-queue_effect Rest e g q a (inr (inl (inr r))) = inr (inl r)
    Watched-queue_effect Rest e g q a (inr (inr f)) = inr (inr f)

    pub collect_dependents-Follows : (fuel : ℕ) → FollowsBelow fuel (collect_dependents fuel)
    unfolding collect_dependents queue_effect
    collect_dependents-Follows zero Rest x acc l = absurd (omega (arith, l))
    collect_dependents-Follows (suc fuel) Rest (effect e) (g, q) l = λ active watched. (
      (g, queue_effect e g q),
      refl,
      omega arith,
      Marks-refl g,
      Watched-queue_effect Rest e g q active watched,
    )
    collect_dependents-Follows (suc fuel) Rest (memo m) (g, q) l =
        collect_memo-Follows (collect_dependents fuel) fuel m Rest g q
          (collect_dependents-Follows fuel) l
