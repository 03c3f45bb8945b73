-- ===== src/Signal/Memo.antt =====
-- `Memo::get` in a graph that keeps the invariant: a value, which is up to date.
use krab_pub.Common.{
  ℕ, zero, suc, ◌≡◌, ◌∙◌, sym, refl, true, false, not, ◌&&◌, Option, none, some, ◌⊎◌, inl, inr,
  get_elem?, arith, get_elem?-set, get_elem?-some, Bool-cases, Option-cases,
}
use krab_pub.Signal.{
  Subscriber, subscribed, push_subscriber, MemoState, Graph, is_alive, Reading, value_of,
  track_memo, recompute_now, with_value, refresh, get_memo,
}
use krab_pub.Signal.Fresh.{
  same_node_iff, subscribed-push_subscriber, MemoGrows, Grows, is_alive-Grows, Grows-refl,
  Grows-trans,
}
use krab_pub.Signal.Tracking.{
  IsCurrent, IsQuiet, IsQuiet-Grows, IsLive, track_memo-Grows, track_memo-IsCurrent,
}
use krab_pub.Signal.Computing.{IsReadBy, Gives, Readable}
use krab_pub.Signal.Recompute.{started, set_memo-IsCurrent, Recomputed, recompute_now-Recomputed}

module _ {V : Type 0} where
  abbrev IsHeardBy : Option Subscriber → MemoState V → Type 0
  IsHeardBy none st = Unit {0}
  IsHeardBy (some s) st = subscribed s st.subscribers ≡ true

  -- The same memo but for its subscribers.
  record IsTracked (current : Option Subscriber) (st st' : MemoState V) : Type 0 where
    value : st'.value ≡ st.value
    dirty : st'.dirty ≡ st.dirty
    computing : st'.computing ≡ st.computing
    disposed : st'.disposed ≡ st.disposed
    heard : IsHeardBy current st'

  track_memo-IsTracked :
      (current : Option Subscriber) (m : ℕ) (st : MemoState V) (g : Graph V)
      → get_elem? g.memos m ≡ some st
      → IsLive g current
      → (st' : MemoState V) × (get_elem? (track_memo current m st g).memos m ≡ some st')
        × IsTracked current st st'
  unfolding track_memo
  track_memo-IsTracked none m st g e live =
      (st, e, record { value = refl; dirty = refl; computing = refl; disposed = refl; heard = tt })
  track_memo-IsTracked (some s) m st g e live = (
    new,
    ground (arith, get_elem?-set g.memos m m st new e),
    record {
      value = refl;
      dirty = refl;
      computing = refl;
      disposed = refl;
      heard = ground (
        arith,
        subscribed-push_subscriber (is_alive g) s s st.subscribers live,
        same_node_iff s s,
      );
    },
  )
    where
      new : MemoState V
      new = record st { subscribers = push_subscriber (is_alive g) st.subscribers s }

  with_value-some :
      (go : Option Subscriber → ℕ → Graph V → Reading V) (m : ℕ) (g : Graph V) (st : MemoState V)
      (v : V)
      → get_elem? g.memos m ≡ some st
      → st.value ≡ some v
      → with_value go m g ≡ value_of g v
  unfolding with_value
  with_value-some go m g st v e val = rw (e, with_value, val) refl

  refresh-clean :
      (go : Option Subscriber → ℕ → Graph V → Reading V) (m : ℕ) (st : MemoState V) (g : Graph V)
      → (st.dirty && not st.disposed) ≡ false
      → refresh go m st g ≡ with_value go m g
  unfolding refresh
  refresh-clean go m st g h = rw h refl

  refresh-dirty :
      (go : Option Subscriber → ℕ → Graph V → Reading V) (m : ℕ) (st : MemoState V) (g g' : Graph V)
      (v : V)
      → (st.dirty && not st.disposed) ≡ true
      → recompute_now go m g ≡ value_of g' v
      → refresh go m st g ≡ with_value go m g'
  unfolding refresh
  refresh-dirty go m st g g' v h r = rw (h, r) refl

  get_memo-idle :
      (fuel : ℕ) (current : Option Subscriber) (m : ℕ) (st : MemoState V) (g : Graph V)
      → get_elem? g.memos m ≡ some st
      → st.computing ≡ false
      → get_memo (suc fuel) current m g ≡ refresh (get_memo fuel) m st (track_memo current m st g)
  unfolding get_memo
  get_memo-idle fuel current m st g e idle = rw (e, get_memo, idle) refl

  read_by :
      (g g' : Graph V) (current : Option Subscriber) (st st' : MemoState V)
      → MemoGrows g st st'
      → IsLive g current
      → IsHeardBy current st
      → (st'.disposed ≡ true) ⊎ ((st'.dirty ≡ false) × (st'.computing ≡ false))
      → IsReadBy current st'
  read_by g g' none st st' r live heard status = status
  read_by g g' (some s) st st' r live heard (inl d) = inl d
  read_by g g' (some s) st st' r live heard (inr (k, n)) = inr (k, n, r.kept s live heard)

  IsLive-Grows :
      (g g' : Graph V) (current : Option Subscriber)
      → Grows g g'
      → IsLive g current
      → IsLive g' current
  IsLive-Grows g g' none h l = tt
  IsLive-Grows g g' (some s) h l = is_alive-Grows g g' s h ∙ l

  dirty_read :
      (go : Option Subscriber → ℕ → Graph V → Reading V) (current : Option Subscriber) (m : ℕ)
      (st st1 : MemoState V) (g : Graph V)
      → Readable m go
      → get_elem? g.memos m ≡ some st1
      → IsTracked current st st1
      → IsLive g current
      → IsCurrent g
      → IsQuiet (suc m) g
      → (st.dirty && not st.disposed) ≡ true
      → Gives g current m (refresh go m st g)
  dirty_read go current m st st1 g w e like live c q flag = ending (
      recompute_now-Recomputed go m st1 g w e alive dirty idle
        (set_memo-IsCurrent m st1 (started st1) g e alive (inl dirty) refl
          (λ n. absurd (ground arith)) (λ _ _ n. absurd (ground arith)) c)
        (λ j sj l ej. q j sj (omega (arith, l)) ej))
    where
      alive : st1.disposed ≡ false
      alive = like.disposed ∙ ground arith

      dirty : st1.dirty ≡ true
      dirty = like.dirty ∙ ground arith

      idle : st1.computing ≡ false
      idle = q m st1 (omega arith) e

      ending : Recomputed g m (recompute_now go m g) → Gives g current m (refresh go m st g)
      ending (g', v, r, h, c', (st', e', val, d, k, n)) = read (h.memos m st1 e)
        where
          read :
              ((st'' : MemoState V) × (get_elem? g'.memos m ≡ some st'') × MemoGrows g st1 st'')
              → Gives g current m (refresh go m st g)
          read (st'', e'', moved) =
              let same : st'' ≡ st' = ground arith in
              (
                g',
                v,
                refresh-dirty go m st g g' v flag r ∙ with_value-some go m g' st' v e' val,
                h,
                c',
                (
                  st',
                  e',
                  val,
                  read_by g g' current st1 st' (rw (sym same) moved) live like.heard (inr (k, n)),
                ),
              )

  clean_read :
      (go : Option Subscriber → ℕ → Graph V → Reading V) (current : Option Subscriber) (m : ℕ)
      (st st1 : MemoState V) (g : Graph V)
      → get_elem? g.memos m ≡ some st1
      → IsTracked current st st1
      → IsLive g current
      → IsCurrent g
      → IsQuiet (suc m) g
      → (st.dirty && not st.disposed) ≡ false
      → Gives g current m (refresh go m st g)
  clean_read go current m st st1 g e like live c q flag = ending (Option-cases st1.value)
    where
      idle : st1.computing ≡ false
      idle = q m st1 (omega arith) e

      status : (st1.disposed ≡ true) ⊎ ((st1.dirty ≡ false) × (st1.computing ≡ false))
      status = elim (Bool-cases st.disposed) [
        | inl d ↦ inl (like.disposed ∙ d)
        | inr n ↦ inr (like.dirty ∙ ground arith, idle)
      ]

      ending :
          (st1.value ≡ none) ⊎ ((v : V) × (st1.value ≡ some v))
          → Gives g current m (refresh go m st g)
      ending (inl missing) = absurd (ground (arith, c.valued m st1 e idle))
      ending (inr (v, val)) = (
        g,
        v,
        refresh-clean go m st g flag ∙ with_value-some go m g st1 v e val,
        Grows-refl g,
        c,
        (
          st1,
          e,
          val,
          read_by g g current st1 st1
              (record {
                compute = refl;
                disposed = refl;
                computing = refl;
                frozen = λ _. refl;
                clean = λ k. (k, refl);
                kept = λ _ _ i. i;
              })
              live like.heard status,
        ),
      )

  -- Reads of the memos before the fuel.
  pub get_memo-Readable : (fuel : ℕ) → Readable {V = V} fuel (get_memo fuel)
  get_memo-Readable zero current m g below here live c q = absurd (omega (arith, below))
  get_memo-Readable (suc fuel) current m g below here live c q =
      tracked (get_elem?-some g.memos m here) (λ cur j g' l h lv c' q'.
        get_memo-Readable fuel cur j g' (omega (arith, l, below)) h lv c' q')
    where
      tracked :
          ((st : MemoState V) × (get_elem? g.memos m ≡ some st))
          → Readable {V = V} m (get_memo fuel)
          → Gives g current m (get_memo (suc fuel) current m g)
      tracked (st, e) w =
          found (track_memo-IsTracked current m st g e live)
            (Bool-cases (st.dirty && not st.disposed))
        where
          g1 : Graph V
          g1 = track_memo current m st g

          h1 : Grows g g1
          h1 = track_memo-Grows current m st g e

          c1 : IsCurrent g1
          c1 = track_memo-IsCurrent current m st g e c

          after :
              Gives g1 current m (refresh (get_memo fuel) m st g1)
              → Gives g current m (get_memo (suc fuel) current m g)
          after (g', v, r, h, c', read) = (
            g',
            v,
            get_memo-idle fuel current m st g e (q m st (omega arith) e) ∙ r,
            Grows-trans g g1 g' h1 h,
            c',
            read,
          )

          found :
              ((st1 : MemoState V) × (get_elem? g1.memos m ≡ some st1) × IsTracked current st st1)
              → ((st.dirty && not st.disposed) ≡ true) ⊎ ((st.dirty && not st.disposed) ≡ false)
              → Gives g current m (get_memo (suc fuel) current m g)
          found (st1, e1, like) (inl flag) = after (
              dirty_read (get_memo fuel) current m st st1 g1 w e1 like
                (IsLive-Grows g g1 current h1 live) c1 (IsQuiet-Grows (suc m) g g1 h1 q) flag)
          found (st1, e1, like) (inr flag) = after (
              clean_read (get_memo fuel) current m st st1 g1 e1 like
                (IsLive-Grows g g1 current h1 live) c1 (IsQuiet-Grows (suc m) g g1 h1 q) flag)
