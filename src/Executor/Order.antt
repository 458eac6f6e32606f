-- ===== src/Executor/Order.antt =====
-- stableTopologicalOrder: Kahn's algorithm, the ready node with the least id first.
pub mod Members
pub mod Terminates
use cognitive_runtime.Prelude.{
  ℕ, zero, suc, ◌+◌, ◌==◌, if◌then◌else◌, Option, none, some, get_or, List, [], ◌∷◌, ◌++◌, length,
  Text, text, text_lt, ℤ, pos, pos_part, pred_ℤ, is_zero,
}
use cognitive_runtime.Prelude.Maps.{get, set, has}
use cognitive_runtime.Prelude.Sorting.{sort}
use cognitive_runtime.Contracts.Dag.{DagNode}
use cognitive_runtime.Executor.Outcome.{Outcome, ok, thrown, error, ◌>>=◌, ◌>>◌}

abbrev pub NodeMap : Type 0
NodeMap = List (Text × DagNode)

abbrev pub Degrees : Type 0
Degrees = List (Text × ℤ)

abbrev pub Dependents : Type 0
Dependents = List (Text × List Text)

-- The loop that fills `byId`.
unfoldable pub index_nodes : NodeMap → List DagNode → Outcome NodeMap
unfolding has set
index_nodes by_id [] = ok by_id
index_nodes by_id (n ∷ ns) =
    let rest = index_nodes (set n.id n by_id) ns in
    if has n.id by_id
    then thrown (error (text "DAG_INVALID: duplicate node id: " ++ n.id))
    else rest

-- The loops that look for a missing dependency.
unfoldable pub check_deps : NodeMap → Text → List Text → Outcome (Unit {0})
unfolding has
check_deps by_id id [] = ok tt
check_deps by_id id (dep ∷ deps) =
    let rest = check_deps by_id id deps in
    if has dep by_id
    then rest
    else thrown
        (error (text "DAG_INVALID: node " ++ (id ++ (text " depends on missing node " ++ dep))))

unfoldable pub check_all_deps : NodeMap → List DagNode → Outcome (Unit {0})
unfolding check_deps
check_all_deps by_id [] = ok tt
check_all_deps by_id (n ∷ ns) = check_deps by_id n.id n.depends_on >> check_all_deps by_id ns

unfoldable pub init_degrees : Degrees → List DagNode → Degrees
unfolding set
init_degrees m [] = m
init_degrees m (n ∷ ns) = init_degrees (set n.id (pos (length n.depends_on)) m) ns

unfoldable pub init_dependents : Dependents → List DagNode → Dependents
unfolding set
init_dependents m [] = m
init_dependents m (n ∷ ns) = init_dependents (set n.id [] m) ns

-- `dependents.get(dep)!.push(id)`
unfoldable pub push_dependent : Text → Text → Dependents → Dependents
unfolding get set
push_dependent dep id m = set dep (get_or (get dep m) [] ++ id ∷ []) m

unfoldable pub push_deps : Text → List Text → Dependents → Dependents
unfolding push_dependent
push_deps id [] m = m
push_deps id (dep ∷ deps) m = push_deps id deps (push_dependent dep id m)

unfoldable pub fill_dependents : Dependents → List DagNode → Dependents
unfolding push_deps
fill_dependents m [] = m
fill_dependents m (n ∷ ns) = fill_dependents (push_deps n.id n.depends_on m) ns

-- The ids with in-degree 0.
unfoldable pub zero_ids : Degrees → List Text
zero_ids [] = []
zero_ids ((id, d) ∷ m) = let rest = zero_ids m in if is_zero d then id ∷ rest else rest

pub record Frontier : Type 0 where
  pub degrees : Degrees
  pub ready : List Text

-- The body of `for (const outId of outs)`.
unfoldable pub relax_one : Text → Frontier → Frontier
unfolding get set sort
relax_one out f =
    let next = pred_ℤ (get_or (get out f.degrees) (pos 0)) in
    let degrees' = set out next f.degrees in
    if is_zero next
    then record { degrees = degrees'; ready = sort text_lt (f.ready ++ out ∷ []) }
    else record { degrees = degrees'; ready = f.ready }

unfoldable pub relax : List Text → Frontier → Frontier
unfolding relax_one
relax [] f = f
relax (out ∷ outs) f = relax outs (relax_one out f)

-- `ordered.push(byId.get(id)!)`: each id in `ready` is a key of `byId`.
unfoldable pub push_node : Option DagNode → List DagNode → List DagNode
push_node none ordered = ordered
push_node (some n) ordered = ordered ++ n ∷ []

-- `while (ready.length > 0)`, with fuel; `none` means that the fuel ran out.
module _ (by_id : NodeMap) (dependents : Dependents) where
  unfoldable pub drain : ℕ → Degrees → List Text → List DagNode → Option (List DagNode)
  unfolding relax get sort push_node
  drain fuel degrees [] ordered = some ordered
  drain zero degrees (id ∷ ready) ordered = none
  drain (suc fuel) degrees (id ∷ ready) ordered =
      let outs = sort text_lt (get_or (get id dependents) []) in
      let f = relax outs (record { degrees = degrees; ready = ready }) in
      drain fuel f.degrees f.ready (push_node (get id by_id) ordered)

-- The sum of the positive in-degrees: with the ready ids, a bound for the rounds of `drain`.
unfoldable pub total : Degrees → ℕ
total [] = 0
total ((id, d) ∷ m) = pos_part d + total m

unfoldable pub fuel_for : Degrees → List Text → ℕ
unfolding total
fuel_for degrees ready = length ready + total degrees

-- `ordered.length !== nodes.length`
unfoldable pub finish : List DagNode → Option (List DagNode) → Outcome (List DagNode)
finish nodes none = thrown (error (text "out of fuel"))
finish nodes (some ordered) =
    if length ordered == length nodes
    then ok ordered
    else thrown (error (text "DAG_INVALID: cycle detected (toposort incomplete)"))

unfoldable pub stable_topological_order : List DagNode → Outcome (List DagNode)
unfolding index_nodes check_all_deps init_degrees init_dependents fill_dependents zero_ids drain
    fuel_for finish
stable_topological_order nodes = do
  by_id ← index_nodes [] nodes
  check_all_deps by_id nodes
  let degrees = init_degrees [] nodes
  let dependents = fill_dependents (init_dependents [] nodes) nodes
  let ready = sort text_lt (zero_ids degrees)
  finish nodes (drain by_id dependents (fuel_for degrees ready) degrees ready [])
