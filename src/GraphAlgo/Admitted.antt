-- ===== src/GraphAlgo/Admitted.antt =====
-- graph-algo/admitted.h: the edges admitted in one timeslot. The list is edges[0 .. size).
use flexplane.Base.{ℕ, not, List, [], ◌∷◌, ◌++◌, ltb, length}
use flexplane.Base.Checked.{Checked, ok, bug_on, ◌>>◌}

-- protocol/topology.h
abbrev pub max_nodes : ℕ
max_nodes = 256

abbrev pub fp_nodes_shift : ℕ
fp_nodes_shift = 8

abbrev pub tor_shift : ℕ
tor_shift = 8

abbrev pub out_of_boundary_node_id : ℕ
out_of_boundary_node_id = 255

pub record AdmittedEdge : Type 0 where
  pub src : ℕ
  pub dst : ℕ

pub record AdmittedTraffic : Type 0 where
  pub partition : ℕ
  pub edges : List AdmittedEdge

unfoldable pub init_admitted_traffic : AdmittedTraffic
init_admitted_traffic = record { partition = 0; edges = [] }

-- `bug` is one of the three asserts on the size and the nodes.
unfoldable pub insert_admitted_edge : AdmittedTraffic → ℕ → ℕ → Checked AdmittedTraffic
insert_admitted_edge admitted src dst = do
  bug_on (not (ltb (length admitted.edges) max_nodes))
  bug_on (not (ltb src max_nodes))
  bug_on (not (ltb dst max_nodes))
  ok (record admitted { edges = admitted.edges ++ (record { src = src; dst = dst } ∷ []) })

unfoldable pub set_admitted_partition : AdmittedTraffic → ℕ → AdmittedTraffic
set_admitted_partition admitted partition_index = record admitted { partition = partition_index }

abbrev pub get_num_admitted : AdmittedTraffic → ℕ
get_num_admitted admitted = length admitted.edges
