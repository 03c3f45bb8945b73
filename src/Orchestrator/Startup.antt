-- ===== src/Orchestrator/Startup.antt =====
-- `resolve_startup_order` of main.rs: a depth-first walk of the dependencies.
mod Marks
pub mod Order
pub mod Errors
use krab_pub.Common.{
  ℕ, zero, suc, ◌+◌, Bool, true, false, List, [], ◌∷◌, ◌++◌, map, Option, none, some, ltb, ◌==◌,
  if◌then◌else◌, length,
}
use krab_pub.Common.Text.{Text, text_eq}
use krab_pub.Store.Interface.{contains}
use krab_pub.Entries.{lookup, insert, contains_key}
use krab_pub.Orchestrator.Configuration.{ServiceDefinition, Services, dependencies}

pub data StartupError : Type 0 where
  dependency_cycle : Text → StartupError
  not_found : Text → StartupError
  unknown_dependency : Text → Text → StartupError

-- The two maps and the order that `visit` builds.
pub record Visit : Type 0 where
  pub temporary : List (Text × Bool)
  pub permanent : List (Text × Bool)
  pub order : List Text

-- What a walk comes to; the last case is that of too little fuel.
pub data Outcome {ℓ} (A : Type ℓ) : Type ℓ where
  visited : A → Outcome A
  refused : StartupError → Outcome A
  unfinished : Outcome A

unfoldable pub and_then : Outcome Visit → (Visit → Outcome Visit) → Outcome Visit
and_then (visited s) next = next s
and_then (refused e) next = refused e
and_then unfinished next = unfinished

-- `get(node).copied().unwrap_or(false)`.
unfoldable pub is_marked : Option Bool → Bool
is_marked none = false
is_marked (some mark) = mark

unfoldable pub finish : Text → Visit → Visit
finish node s = record {
  temporary = insert node false s.temporary;
  permanent = insert node true s.permanent;
  order = if contains node s.order then s.order else s.order ++ node ∷ [];
}

-- The loop over the dependencies of a node, with `go` for the recursive call.
unfoldable pub visit_each :
    (Text → Visit → Outcome Visit) → Services → Text → List Text → Visit → Outcome Visit
unfolding and_then
visit_each go services node [] s = visited s
visit_each go services node (dep ∷ deps) s =
    let rest = and_then (go dep s) (visit_each go services node deps) in
    if contains_key dep services then rest else refused (unknown_dependency node dep)

-- The rest of `visit`, for the service that the node names.
unfoldable pub visit_service :
    (Text → Visit → Outcome Visit)
    → Services
    → Text
    → Visit
    → Option ServiceDefinition
    → Outcome Visit
unfolding finish visit_each and_then
visit_service go services node s none = refused (not_found node)
visit_service go services node s (some service) =
    and_then (visit_each go services node (dependencies service) s) (λ s'. visited (finish node s'))

unfoldable pub visit : ℕ → Services → Text → Visit → Outcome Visit
unfolding is_marked visit_service
visit zero services node s = unfinished
visit (suc fuel) services node s =
    let entered = record s { temporary = insert node true s.temporary } in
    let walked = visit_service (visit fuel services) services node entered (lookup node services) in
    if is_marked (lookup node s.permanent)
    then visited s
    else if is_marked (lookup node s.temporary)
    then refused (dependency_cycle node)
    else walked

-- `str::cmp` on code points, which orders texts as their UTF-8 bytes do.
unfoldable pub text_le : Text → Text → Bool
text_le [] t = true
text_le (c ∷ s) [] = false
text_le (c ∷ s) (d ∷ t) = if c == d then text_le s t else ltb c d

unfoldable pub sort_in : Text → List Text → List Text
unfolding text_le
sort_in k [] = k ∷ []
sort_in k (j ∷ js) = let rest = sort_in k js in if text_le k j then k ∷ j ∷ js else j ∷ rest

-- `names.sort()`.
unfoldable pub sort : List Text → List Text
unfolding sort_in
sort [] = []
sort (k ∷ ks) = sort_in k (sort ks)

-- The loop over the sorted names.
unfoldable pub visit_names : ℕ → Services → List Text → Visit → Outcome Visit
unfolding visit and_then
visit_names fuel services [] s = visited s
visit_names fuel services (name ∷ names) s =
    and_then (visit fuel services name s) (visit_names fuel services names)

abbrev pub names_of : Services → List Text
names_of services = map (λ kv. kv.0) services

unfoldable pub order_of : Outcome Visit → Outcome (List Text)
order_of (visited s) = visited s.order
order_of (refused e) = refused e
order_of unfinished = unfinished

abbrev pub nothing_visited : Visit
nothing_visited = record { temporary = []; permanent = []; order = [] }

unfoldable pub resolve_startup_order : Services → Outcome (List Text)
unfolding visit_names sort order_of
resolve_startup_order services =
    order_of (visit_names (length services + 1) services (sort (names_of services)) nothing_visited)
