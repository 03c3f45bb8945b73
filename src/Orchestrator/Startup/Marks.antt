-- ===== src/Orchestrator/Startup/Marks.antt =====
-- The temporary marks of `visit`: how many services lack one, and what marking does to that.
use krab_pub.Common.{
  ℕ, suc, ◌≤◌, ◌<◌, ◌≡◌, refl, Bool, true, false, List, [], ◌∷◌, length, arith, if◌then◌else◌,
}
use krab_pub.Common.Text.{Text, text_eq, text_eq_iff, text_eq_refl}
use krab_pub.Entries.{lookup, insert, contains_key, lookup-insert}
use krab_pub.Orchestrator.Configuration.{Services}
use krab_pub.Orchestrator.Startup.{is_marked}

abbrev pub Marks : Type 0
Marks = List (Text × Bool)

abbrev pub mark : Marks → Text → Bool
mark marks k = is_marked (lookup k marks)

abbrev pub unmarked : Services → Marks → ℕ
unmarked [] marks = 0
unmarked ((k, service) ∷ services) marks =
    if mark marks k then unmarked services marks else suc (unmarked services marks)

pub mark-insert :
    (k j : Text) (b : Bool) (marks : Marks)
    → mark (insert k b marks) j ≡ (if text_eq k j then b else mark marks j)
unfolding is_marked
mark-insert k j b marks = ground (arith, lookup-insert k j b marks)

pub unmarked-le : (services : Services) (marks : Marks) → unmarked services marks ≤ length services
unmarked-le [] marks = omega arith
unmarked-le ((k, service) ∷ services) marks = ground (arith, unmarked-le services marks)

pub unmarked-congr :
    (services : Services) (marks marks' : Marks)
    → ((k : Text) → mark marks k ≡ mark marks' k)
    → unmarked services marks ≡ unmarked services marks'
unmarked-congr [] marks marks' h = refl
unmarked-congr ((k, service) ∷ services) marks marks' h =
    ground (arith, h k, unmarked-congr services marks marks' h)

unmarked-insert-le :
    (services : Services) (marks : Marks) (node : Text)
    → unmarked services (insert node true marks) ≤ unmarked services marks
unmarked-insert-le [] marks node = omega arith
unmarked-insert-le ((k, service) ∷ services) marks node =
    ground (arith, mark-insert node k true marks, unmarked-insert-le services marks node)

pub unmarked-insert-lt :
    (services : Services) (marks : Marks) (node : Text)
    → contains_key node services ≡ true
    → mark marks node ≡ false
    → unmarked services (insert node true marks) < unmarked services marks
unfolding lookup
unmarked-insert-lt [] marks node known free = ground arith
unmarked-insert-lt ((k, service) ∷ services) marks node known free = ground (
  arith,
  mark-insert node k true marks,
  text_eq_iff k node,
  text_eq_refl node,
  unmarked-insert-le services marks node,
  unmarked-insert-lt services marks node,
)
