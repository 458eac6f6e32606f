-- ===== src/Executor/Fingerprint.antt =====
-- fingerprintDag (packages/runtime/src/meta-planner/task-features.ts), over SHA-256.
use cognitive_runtime.Prelude.{List, [], ◌∷◌, ◌++◌, map, take, Text, text, text_lt}
use cognitive_runtime.Prelude.Sorting.{sort}
use cognitive_runtime.Contracts.Dag.{DagNode, kind_name}

-- `parts.join(sep)`
unfoldable pub join : Text → List Text → Text
join sep [] = []
join sep (p ∷ []) = p
join sep (p ∷ q ∷ ps) = p ++ (sep ++ join sep (q ∷ ps))

unfoldable pub describe_node : DagNode → Text
unfolding join sort kind_name
describe_node n =
    n.id
    ++ (text ":"
        ++ (kind_name n.kind
            ++ (text ":[" ++ (join (text ",") (sort text_lt n.depends_on) ++ text "]"))))

unfoldable pub canonical_dag : List DagNode → Text
unfolding describe_node join sort
canonical_dag nodes = join (text "|") (sort text_lt (map describe_node nodes))

unfoldable pub fingerprint_dag : (sha256_hex : Text → Text) → List DagNode → Text
unfolding canonical_dag
fingerprint_dag sha256_hex nodes = take 16 (sha256_hex (canonical_dag nodes))
