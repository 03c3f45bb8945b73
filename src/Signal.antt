-- ===== src/Signal.antt =====
-- The dependency graph of signal.rs: signals, memos and who is subscribed to them. The value type
-- is one for all signals and memos; a node is named by its index instead of its `Rc`.
pub mod Fresh
pub mod Tracking
pub mod Computing
pub mod Recompute
pub mod Memo
pub mod Reference
pub mod Marking
pub mod Watching
pub mod Writing
pub mod Creating
pub mod Disposing
pub mod Calls
pub mod Steps
pub mod Histories
use krab_pub.Common.{
  ℕ, zero, suc, ◌+◌, Bool, true, false, not, ◌&&◌, ◌||◌, List, [], ◌∷◌, ◌++◌, Option, none, some,
  ◌==◌, if◌then◌else◌, length, filter, get_elem?, set, sum_of,
}

pub data Subscriber : Type 0 where
  effect : ℕ → Subscriber
  memo : ℕ → Subscriber

unfoldable pub same_node : Subscriber → Subscriber → Bool
same_node (effect a) (effect b) = a == b
same_node (memo a) (memo b) = a == b
same_node (effect a) (memo b) = false
same_node (memo a) (effect b) = false

abbrev pub subscribed : Subscriber → List Subscriber → Bool
subscribed s [] = false
subscribed s (t ∷ ts) = same_node t s || subscribed s ts

-- `push_subscriber`: entries whose node is gone are dropped on the way.
unfoldable pub push_subscriber :
    (Subscriber → Bool) → List Subscriber → Subscriber → List Subscriber
push_subscriber is_alive list s =
    let kept = filter is_alive list in if subscribed s kept then kept else kept ++ s ∷ []

-- What the closure of a memo does: it reads, and what it reads decides what it does next.
pub data Reads (V : Type 0) : Type 0 where
  done : V → Reads V
  read_signal : ℕ → (V → Reads V) → Reads V
  read_memo : ℕ → (V → Reads V) → Reads V

pub record SignalState (V : Type 0) : Type 0 where
  pub value : V
  pub subscribers : List Subscriber

pub record MemoState (V : Type 0) : Type 0 where
  pub compute : Reads V
  pub value : Option V
  pub dirty : Bool
  pub computing : Bool
  pub subscribers : List Subscriber
  pub disposed : Bool

-- `dropped`: no `Rc` to the effect is left.
pub record EffectFlags : Type 0 where
  pub disposed : Bool
  pub dropped : Bool

pub record Graph (V : Type 0) : Type 0 where
  pub signals : List (SignalState V)
  pub memos : List (MemoState V)
  pub effects : List EffectFlags

-- A read gives a value, or it panics; the last case is that of too little fuel.
pub data Reading (V : Type 0) : Type 0 where
  value_of : Graph V → V → Reading V
  panicked : Graph V → Reading V
  unfinished : Reading V

abbrev pub reached : Option EffectFlags → Bool
reached none = false
reached (some e) = not e.dropped

abbrev pub runs_again : Option EffectFlags → Bool
runs_again none = false
runs_again (some e) = not e.dropped && not e.disposed

abbrev pub push_unique : ℕ → List ℕ → List ℕ
push_unique e [] = e ∷ []
push_unique e (d ∷ ds) = let rest = push_unique e ds in if d == e then d ∷ ds else d ∷ rest

module _ {V : Type 0} where
  -- A memo that is in the graph has a handle.
  abbrev pub is_alive : Graph V → Subscriber → Bool
  is_alive g (effect e) = reached (get_elem? g.effects e)
  is_alive g (memo m) = true

  abbrev pub set_memo : Graph V → ℕ → MemoState V → Graph V
  set_memo g m st = record g { memos = set g.memos m st }

  abbrev pub and_then : Reading V → (Graph V → V → Reading V) → Reading V
  and_then (value_of g v) next = next g v
  and_then (panicked g) next = panicked g
  and_then unfinished next = unfinished

  -- The tracking of a read, for the node that is current.
  unfoldable pub track_signal : Option Subscriber → ℕ → SignalState V → Graph V → Graph V
  unfolding push_subscriber
  track_signal none i st g = g
  track_signal (some s) i st g = record g {
    signals =
        set g.signals i (record st { subscribers = push_subscriber (is_alive g) st.subscribers s });
  }

  unfoldable pub track_memo : Option Subscriber → ℕ → MemoState V → Graph V → Graph V
  unfolding push_subscriber
  track_memo none m st g = g
  track_memo (some s) m st g =
      set_memo g m (record st { subscribers = push_subscriber (is_alive g) st.subscribers s })

  -- `ReadSignal::get`.
  unfoldable pub get_signal : Option Subscriber → ℕ → Graph V → Reading V
  unfolding track_signal
  get_signal current i g = elim (get_elem? g.signals i) [
    | none ↦ panicked g
    | some st ↦ value_of (track_signal current i st g) st.value
  ]

  -- The closure of a memo, run with the memo as the current node.
  unfoldable pub compute_reads :
      (Option Subscriber → ℕ → Graph V → Reading V) → Subscriber → Reads V → Graph V → Reading V
  unfolding get_signal
  compute_reads go s (done v) g = value_of g v
  compute_reads go s (read_signal i k) g =
      and_then (get_signal (some s) i g) (λ g' v. compute_reads go s (k v) g')
  compute_reads go s (read_memo m k) g =
      and_then (go (some s) m g) (λ g' v. compute_reads go s (k v) g')

  -- The guard's work: the flags, and the value if the computation came to its end.
  unfoldable pub finish_memo : ℕ → Option V → Option (MemoState V) → Graph V → Graph V
  finish_memo m outcome none g = g
  finish_memo m (some v) (some st) g =
      set_memo g m (record st { value = some v; computing = false })
  finish_memo m none (some st) g = set_memo g m (record st { dirty = true; computing = false })

  unfoldable pub finish_compute : ℕ → Reading V → Reading V
  unfolding finish_memo
  finish_compute m (value_of g v) = value_of (finish_memo m (some v) (get_elem? g.memos m) g) v
  finish_compute m (panicked g) = panicked (finish_memo m none (get_elem? g.memos m) g)
  finish_compute m unfinished = unfinished

  -- `MemoState::recompute_now`.
  unfoldable pub recompute_now :
      (Option Subscriber → ℕ → Graph V → Reading V) → ℕ → Graph V → Reading V
  unfolding compute_reads finish_compute
  recompute_now go m g = elim (get_elem? g.memos m) [
    | none ↦ panicked g
    | some st ↦ finish_compute m (
        compute_reads go (memo m) st.compute
          (set_memo g m (record st { dirty = false; computing = true })))
  ]

  -- The rest of `Memo::with`: the value, or one more try if there never was one.
  unfoldable pub with_value :
      (Option Subscriber → ℕ → Graph V → Reading V) → ℕ → Graph V → Reading V
  unfolding recompute_now
  with_value go m g = elim (get_elem? g.memos m) as (λ _. Reading V) [
    | none ↦ panicked g
    | some st ↦ elim st.value as (λ _. Reading V) [
      | some v ↦ value_of g v
      | none ↦
          if st.computing || st.disposed
          then panicked g
          else recompute_now go m (set_memo g m (record st { dirty = true }))
    ]
  ]

  unfoldable pub refresh :
      (Option Subscriber → ℕ → Graph V → Reading V) → ℕ → MemoState V → Graph V → Reading V
  unfolding with_value recompute_now
  refresh go m st g =
      let fresh = and_then (recompute_now go m g) (λ g' _. with_value go m g') in
      let cached = with_value go m g in if st.dirty && not st.disposed then fresh else cached

  -- `Memo::get`, with `track_and_refresh`.
  unfoldable pub get_memo : ℕ → Option Subscriber → ℕ → Graph V → Reading V
  unfolding refresh track_memo
  get_memo zero current m g = unfinished
  get_memo (suc fuel) current m g = elim (get_elem? g.memos m) as (λ _. Reading V) [
    | none ↦ panicked g
    | some st ↦
        if st.computing
        then with_value (get_memo fuel) m g
        else refresh (get_memo fuel) m st (track_memo current m st g)
  ]

  -- `collect_dependents`, which marks memos dirty, takes their subscribers, and gathers effects.
  unfoldable pub collect_each :
      (Subscriber → Graph V × List ℕ → Option (Graph V × List ℕ))
      → List Subscriber
      → Graph V × List ℕ
      → Option (Graph V × List ℕ)
  collect_each go [] acc = some acc
  collect_each go (s ∷ ss) acc = elim (go s acc) [
    | none ↦ none
    | some acc' ↦ collect_each go ss acc'
  ]

  unfoldable pub collect_memo :
      (Subscriber → Graph V × List ℕ → Option (Graph V × List ℕ))
      → ℕ
      → Option (MemoState V)
      → Graph V × List ℕ
      → Option (Graph V × List ℕ)
  unfolding collect_each
  collect_memo go m none acc = some acc
  collect_memo go m (some st) (g, queue) =
      let marked = set_memo g m (record st { dirty = true; subscribers = [] }) in
      if st.disposed then some (g, queue) else collect_each go st.subscribers (marked, queue)

  unfoldable pub collect_dependents : ℕ → Subscriber → Graph V × List ℕ → Option (Graph V × List ℕ)
  unfolding collect_memo
  collect_dependents zero s acc = none
  collect_dependents (suc fuel) (effect e) (g, queue) =
      some (g, (if runs_again (get_elem? g.effects e) then push_unique e queue else queue))
  collect_dependents (suc fuel) (memo m) (g, queue) =
      collect_memo (collect_dependents fuel) m (get_elem? g.memos m) (g, queue)

  abbrev pub has_subscribers : MemoState V → ℕ
  has_subscribers st = elim st.subscribers [ [] ↦ 0 | ◌∷◌ s ss ↦ 1 ]

  -- `WriteSignal::set`: the graph after it, and the effects to run.
  unfoldable pub set_signal : ℕ → V → Graph V → Option (Graph V × List ℕ)
  unfolding collect_dependents collect_each
  set_signal i v g = elim (get_elem? g.signals i) [
    | none ↦ none
    | some st ↦
        collect_each (collect_dependents (sum_of has_subscribers g.memos + 1)) st.subscribers
          (record g { signals = set g.signals i (record { value = v; subscribers = [] }) }, [])
  ]

  unfoldable pub create_signal : V → Graph V → Graph V
  create_signal v g = record g {
    signals = g.signals ++ record { value = v; subscribers = [] } ∷ [];
  }

  unfoldable pub create_memo : Reads V → Graph V → Reading V
  unfolding recompute_now get_memo
  create_memo compute g = recompute_now (get_memo (length g.memos)) (length g.memos) (record g {
    memos =
        g.memos
        ++ record {
          compute = compute;
          value = none;
          dirty = true;
          computing = false;
          subscribers = [];
          disposed = false;
        }
          ∷ [];
  })

  unfoldable pub dispose_memo : ℕ → Graph V → Graph V
  dispose_memo m g = elim (get_elem? g.memos m) [
    | none ↦ g
    | some st ↦ set_memo g m (record st { disposed = true })
  ]
