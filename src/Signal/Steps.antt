-- ===== src/Signal/Steps.antt =====
-- What one call of a program leaves, and that it keeps all that it does not make due.
use krab_pub.Common.{
  ℕ, suc, ◌<◌, ◌≤◌, ◌≡◌, ◌∙◌, ap, refl, true, false, List, ◌∷◌, none, some, inl, inr, length,
  length-append, get_elem?, get_elem?-lt, if_true, if_false, arith, length-set, Bool-cases,
  Option-cases,
}
use krab_pub.Signal.{
  Subscriber, effect, memo, Reads, done, read_signal, read_memo, Graph, EffectFlags, get_memo,
  is_alive, runs_again, create_signal, create_memo, dispose_memo, set_signal,
}
use krab_pub.Signal.Calls.{
  SignalCall, creates_signal, creates_memo, creates_effect, writes, reads_memo, runs_effect,
  disposes_memo, sets_effect, graph_of, written_graph, call, queue_of, IsBound,
}
use krab_pub.Signal.Fresh.{Fresh, Fresh-Grows, Grows}
use krab_pub.Signal.Tracking.{IsBelow, IsCurrent, IsQuiet-Grows}
use krab_pub.Signal.Computing.{compute_reads-Fresh}
use krab_pub.Signal.Memo.{get_memo-Readable}
use krab_pub.Signal.Reference.{get_memo-memo_value}
use krab_pub.Signal.Marking.{queued}
use krab_pub.Signal.Writing.{
  write_value, overwritten, Writes, set_signal-Writes, Writes-IsCurrent, Marks-memo,
}
use krab_pub.Signal.Recompute.{Recomputed}
use krab_pub.Signal.Creating.{
  create_signal-IsCurrent, create_signal-Fresh, with_memo-Fresh, create_memo-Recomputed, with_memo,
  IsAtRest,
}
use krab_pub.Signal.Disposing.{dispose_memo-IsCurrent, dispose_memo-Fresh}

module _ {V : Type 0} where
  -- Nothing is being computed, what is served is up to date, and there are so many nodes.
  pub record IsIdle (signals memos : ℕ) (g : Graph V) : Type 0 where
    pub current : IsCurrent g
    pub quiet : IsAtRest g
    pub signal_count : length g.signals ≡ signals
    pub memo_count : length g.memos ≡ memos

  -- A call that does not make the effect due keeps all that it read up to date.
  abbrev pub Keeps : SignalCall V → Graph V → Graph V → Type 0
  Keeps c g g' =
      (e : ℕ) (t : Reads V) (w : V)
      → runs_again (get_elem? g.effects e) ≡ true
      → queued e (queue_of c g) ≡ false
      → Fresh g (effect e) t w
      → Fresh g' (effect e) t w

  abbrev pub Leaves : ℕ → ℕ → SignalCall V → Graph V → Type 0
  Leaves signals memos c g =
      (g' : Graph V) × (call c g ≡ some g') × IsIdle signals memos g' × Keeps c g g'

  pub runs_again-reached :
      (g : Graph V) (e : ℕ)
      → runs_again (get_elem? g.effects e) ≡ true
      → is_alive g (effect e) ≡ true
  runs_again-reached g e h = elim (Option-cases (get_elem? g.effects e)) [
    | inl missing ↦ absurd (ground arith)
    | inr (f, there) ↦ ground arith
  ]

  pub Grows-IsIdle :
      (n m : ℕ) (g g' : Graph V)
      → Grows g g'
      → IsCurrent g'
      → IsAtRest g
      → length g.signals ≡ n
      → length g.memos ≡ m
      → IsIdle n m g'
  Grows-IsIdle n m g g' h c q sn mn = record {
    current = c;
    quiet = λ j sj l ej.
        IsQuiet-Grows (length g.memos) g g' h q j sj (omega (arith, l, h.memo_count)) ej;
    signal_count = h.signal_count ∙ sn;
    memo_count = h.memo_count ∙ mn;
  }

  Grows-Keeps : (c : SignalCall V) (g g' : Graph V) → Grows g g' → Keeps c g g'
  Grows-Keeps c g g' h e t w a d f = Fresh-Grows g g' (effect e) t w h (runs_again-reached g e a) f

  queue_of-write :
      (i : ℕ) (v : V) (g : Graph V) (r : Graph V × List ℕ)
      → set_signal i v g ≡ some r
      → queue_of (writes i v) g ≡ r.1
  unfolding queue_of
  queue_of-write i v g r e = rw (e, queue_of) refl

  call-write : (n m i : ℕ) (v : V) (g : Graph V) → i < n → IsIdle n m g → Leaves n m (writes i v) g
  unfolding call
  call-write n m i v g l h = ending (set_signal-Writes i v g (omega (arith, l, h.signal_count)))
    where
      ending : Writes i v g → Leaves n m (writes i v) g
      ending (g', q, r, moved, handled) = (
        g',
        ap written_graph r,
        record {
          current =
              Writes-IsCurrent i v g g' q (omega (arith, l, h.signal_count)) h.current moved
                handled;
          quiet = λ j st' lj e'.
              let (st, e, k) = Marks-memo (write_value i v g) g' j st' moved e' in
              k.computing ∙ h.quiet j st (omega (arith, lj, moved.memo_count)) e;
          signal_count =
              ap length moved.signals ∙ length-set g.signals i (overwritten v) ∙ h.signal_count;
          memo_count = moved.memo_count ∙ h.memo_count;
        },
        λ e t w a due f. elim (handled (effect e) t w a f) [
          | inl marked ↦
              let same : queue_of (writes i v) g ≡ q = queue_of-write i v g (g', q) r in
              absurd (ground arith)
          | inr (inl gone) ↦ absurd gone
          | inr (inr still) ↦ still
        ],
      )

  call-create_memo :
      (n m : ℕ) (t : Reads V) (g : Graph V)
      → IsBelow n m t
      → IsIdle n m g
      → Leaves n (suc m) (creates_memo t) g
  unfolding call
  call-create_memo n m t g b h =
      ending (create_memo-Recomputed t g (rw (h.signal_count, h.memo_count) b) h.current h.quiet)
    where
      ending :
          (IsAtRest (with_memo t g) × Recomputed (with_memo t g) (length g.memos) (create_memo t g))
          → Leaves n (suc m) (creates_memo t) g
      ending (quiet, (g', v, r, grown, c, read)) = (
        g',
        ap graph_of r,
        Grows-IsIdle n (suc m) (with_memo t g) g' grown c quiet h.signal_count
            (length-append g.memos _ ∙ omega (arith, h.memo_count)),
        λ e t' w a due f.
            Fresh-Grows (with_memo t g) g' (effect e) t' w grown
              (runs_again-reached (with_memo t g) e a) (with_memo-Fresh t g (effect e) t' w f),
      )

  call-read_memo : (n m j : ℕ) (g : Graph V) → j < m → IsIdle n m g → Leaves n m (reads_memo j) g
  unfolding call
  call-read_memo n m j g l h =
      let (g', v, r, val, grown, c) =
        get_memo-memo_value none j g (omega (arith, l, h.memo_count)) tt h.current
          (λ k st lk ek. h.quiet k st (get_elem?-lt g.memos k st ek) ek) in
      (
        g',
        ap graph_of r,
        Grows-IsIdle n m g g' grown c h.quiet h.signal_count h.memo_count,
        Grows-Keeps (reads_memo j) g g' grown,
      )

  call-run_effect :
      (n m e : ℕ) (t : Reads V) (g : Graph V)
      → IsBelow n m t
      → IsIdle n m g
      → Leaves n m (runs_effect e t) g
  unfolding call
  call-run_effect n m e t g b h = elim (Bool-cases (runs_again (get_elem? g.effects e))) [
    | inr gone ↦ (g, if_false (runs_again (get_elem? g.effects e)) _ _ gone, h, λ x s w a d f. f)
    | inl live ↦
        let (g', v, r, grown, c, f) =
          compute_reads-Fresh (get_memo (length g.memos)) (length g.memos) (effect e) t g
            (get_memo-Readable (length g.memos)) (rw (h.signal_count, h.memo_count) b) (omega arith)
            (runs_again-reached g e live) h.current h.quiet in
        (
          g',
          if_true (runs_again (get_elem? g.effects e)) _ _ live ∙ ap graph_of r,
          Grows-IsIdle n m g g' grown c h.quiet h.signal_count h.memo_count,
          Grows-Keeps (runs_effect e t) g g' grown,
        )
  ]

  Fresh-effects :
      (g : Graph V) (es : List EffectFlags) (s : Subscriber) (t : Reads V) (w : V)
      → Fresh g s t w
      → Fresh (record g { effects = es }) s t w
  Fresh-effects g es s (done x) w f = f
  Fresh-effects g es s (read_signal i k) w (si, ei, sub, f) =
      (si, ei, sub, Fresh-effects g es s (k si.value) w f)
  Fresh-effects g es s (read_memo j k) w (sj, x, ej, val, settled, f) =
      (sj, x, ej, val, settled, Fresh-effects g es s (k x) w f)

  IsCurrent-effects :
      (g : Graph V) (es : List EffectFlags) → IsCurrent g → IsCurrent (record g { effects = es })
  IsCurrent-effects g es c = record {
    ordered = c.ordered;
    valued = c.valued;
    fresh = λ m st e d k n.
        let (w, val, f) = c.fresh m st e d k n in
        (w, val, Fresh-effects g es (memo m) st.compute w f);
  }

  pub IsIdle-effects :
      (n m : ℕ) (g : Graph V) (es : List EffectFlags)
      → IsIdle n m g
      → IsIdle n m (record g { effects = es })
  IsIdle-effects n m g es h = record {
    current = IsCurrent-effects g es h.current;
    quiet = h.quiet;
    signal_count = h.signal_count;
    memo_count = h.memo_count;
  }

  effects-Leaves :
      (n m : ℕ) (c : SignalCall V) (g : Graph V) (es : List EffectFlags)
      → call c g ≡ some (record g { effects = es })
      → IsIdle n m g
      → Leaves n m c g
  effects-Leaves n m c g es r h =
      (_, r, IsIdle-effects n m g es h, λ e t w a d f. Fresh-effects g es (effect e) t w f)

  abbrev pub Continues : ℕ → ℕ → SignalCall V → List (SignalCall V) → Graph V → Type 0
  Continues n m c cs g =
      (n' : ℕ) × (m' : ℕ) × (n ≤ n') × (m ≤ m') × IsBound n' m' cs × Leaves n' m' c g

  pub call-Continues :
      (c : SignalCall V) (cs : List (SignalCall V)) (n m : ℕ) (g : Graph V)
      → IsBound n m (c ∷ cs)
      → IsIdle n m g
      → Continues n m c cs g
  unfolding call create_signal
  call-Continues (creates_signal v) cs n m g b h = (
    suc n,
    m,
    omega arith,
    omega arith,
    b,
    (
      create_signal v g,
      refl,
      record {
        current = create_signal-IsCurrent v g h.current;
        quiet = h.quiet;
        signal_count = length-append g.signals _ ∙ omega (arith, h.signal_count);
        memo_count = h.memo_count;
      },
      λ e t w a d f. create_signal-Fresh v g (effect e) t w f,
    ),
  )
  call-Continues (creates_memo t) cs n m g b h =
      (n, suc m, omega arith, omega arith, b.1, call-create_memo n m t g b.0 h)
  call-Continues creates_effect cs n m g b h =
      (n, m, omega arith, omega arith, b, effects-Leaves n m creates_effect g _ refl h)
  call-Continues (writes i v) cs n m g b h =
      (n, m, omega arith, omega arith, b.1, call-write n m i v g b.0 h)
  call-Continues (reads_memo j) cs n m g b h =
      (n, m, omega arith, omega arith, b.1, call-read_memo n m j g b.0 h)
  call-Continues (runs_effect e t) cs n m g b h =
      (n, m, omega arith, omega arith, b.1, call-run_effect n m e t g b.0 h)
  call-Continues (disposes_memo j) cs n m g b h =
      let (c, q, same, count) = dispose_memo-IsCurrent j g h.current h.quiet in
      (
        n,
        m,
        omega arith,
        omega arith,
        b,
        (
          dispose_memo j g,
          refl,
          record {
            current = c;
            quiet = q;
            signal_count = ap length same ∙ h.signal_count;
            memo_count = count ∙ h.memo_count;
          },
          λ e t w a d f. dispose_memo-Fresh j g (effect e) t w f,
        ),
      )
  call-Continues (sets_effect e flags) cs n m g b h =
      (n, m, omega arith, omega arith, b, effects-Leaves n m (sets_effect e flags) g _ refl h)
