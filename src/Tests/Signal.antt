-- ===== src/Tests/Signal.antt =====
-- The signals run on examples, and the theorems at concrete inputs.
use krab_pub.Common.{ℕ, ◌+◌, ◌<◌, ◌≡◌, refl, List, [], ◌∷◌, Option, none, some, length, arith}
use krab_pub.Signal.{
  effect, Reads, done, read_signal, read_memo, Graph, Reading, value_of, panicked, unfinished,
  get_memo, compute_reads, same_node,
}
use krab_pub.Signal.Calls.{
  SignalCall, creates_signal, creates_memo, creates_effect, writes, reads_memo, calls, never_due,
  IsBound,
}
use krab_pub.Signal.Reference.{evaluate, memo_value}
use krab_pub.Signal.Marking.{queued}
use krab_pub.Signal.Writing.{Writes, set_signal-Writes}
use krab_pub.Signal.Histories.{empty_graph, calls-get_memo, never_due-evaluate}

abbrev next_of : Reads ℕ
next_of = read_signal 0 (λ x. done (x + 1))

-- A diamond: two branches over one signal, and their sum.
abbrev sum_of_branches : Reads ℕ
sum_of_branches = read_memo 0 (λ a. read_memo 1 (λ b. done (a + b)))

abbrev diamond : List (SignalCall ℕ)
diamond =
    creates_signal 3
    ∷ creates_signal 8
    ∷ creates_memo next_of
    ∷ creates_memo next_of
    ∷ creates_memo sum_of_branches
    ∷ creates_effect
    ∷ reads_memo 2
    ∷ writes 0 10
    ∷ []

abbrev diamond-IsBound : IsBound 0 0 diamond
diamond-IsBound = (
  (omega arith, λ x. tt),
  (
    (omega arith, λ x. tt),
    ((omega arith, λ a. (omega arith, λ b. tt)), (omega arith, (omega arith, tt))),
  ),
)

abbrev value_in : Reading ℕ → Option ℕ
value_in (value_of g v) = some v
value_in (panicked g) = none
value_in unfinished = none

abbrev graph_or : Option (Graph ℕ) → Graph ℕ
graph_or none = empty_graph
graph_or (some g) = g

abbrev after : List (SignalCall ℕ) → Graph ℕ
after cs = graph_or (calls cs empty_graph)

diamond_sum : value_in (get_memo 3 none 2 (after diamond)) ≡ some 22
unfolding calls get_memo same_node
diamond_sum = refl

calls-get_memo_example :
    (g : Graph ℕ) × (calls diamond empty_graph ≡ some g)
    × ((m : ℕ)
        → m < length g.memos
        → (g' : Graph ℕ) × (v : ℕ) × (get_memo (length g.memos) none m g ≡ value_of g' v)
          × (memo_value (length g.memos) g m ≡ some v))
calls-get_memo_example = calls-get_memo diamond diamond-IsBound

set_signal-Writes_example : Writes 0 7 (after diamond)
unfolding calls same_node
set_signal-Writes_example = set_signal-Writes 0 7 (after diamond) (omega arith)

-- An effect that reads a memo; a write to another signal leaves it alone.
abbrev shown : Reads ℕ
shown = read_memo 2 (λ a. done a)

abbrev ran : Reading ℕ → Graph ℕ
ran (value_of g v) = g
ran (panicked g) = empty_graph
ran unfinished = empty_graph

abbrev shown_graph : Graph ℕ
shown_graph = ran (compute_reads (get_memo 3) (effect 0) shown (after diamond))

abbrev later : List (SignalCall ℕ)
later = writes 1 4 ∷ reads_memo 0 ∷ []

never_due-evaluate_example :
    evaluate
      (memo_value 3 (graph_or (calls later shown_graph)))
      (graph_or (calls later shown_graph))
      shown
    ≡ some 22
unfolding calls get_memo compute_reads never_due queued same_node
never_due-evaluate_example =
    never_due-evaluate diamond later 0 shown 22 (after diamond) shown_graph
      (graph_or (calls later shown_graph)) diamond-IsBound refl
      ((omega arith, λ a. tt), (omega arith, (omega arith, tt))) refl refl refl refl
