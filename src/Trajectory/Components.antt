-- ===== src/Trajectory/Components.antt =====
-- `TrajectoryGraph::connected_components` of trajectory_graph_lite/src/trajectory_graph.cpp.
use accelsim_lite.Prelude.{ℕ, zero, suc, List, [], ◌∷◌, ◌++◌, if◌then◌else◌, contains, length}
use accelsim_lite.Trajectory.{Geometry, TrajectoryGraph, neighbors}
use accelsim_lite.Prelude.Maps.{keys}

-- What the search keeps: the identifiers that it has visited and those it has still to expand.
pub record Search : Type 0 where
  pub seen : List ℕ
  pub pending : List ℕ

-- The loop over the neighbours of a point.
unfoldable pub visit_neighbors : List ℕ → Search → Search
visit_neighbors [] s = s
visit_neighbors (neighbor ∷ rest) s =
    if contains s.seen neighbor
    then visit_neighbors rest s
    else visit_neighbors rest
        (record { seen = neighbor ∷ s.seen; pending = s.pending ++ neighbor ∷ [] })

module _ (G : Geometry) where
  -- The loop over the pending identifiers, on fuel.
  unfoldable pub search : TrajectoryGraph G → ℕ → Search → Search
  unfolding visit_neighbors
  search g zero s = s
  search g (suc fuel) s = elim s.pending [
    | [] ↦ s
    | current ∷ rest ↦
        search g fuel (visit_neighbors (neighbors G g current) (record s { pending = rest }))
  ]

  -- The loop over the points, with what has been visited and counted.
  unfoldable pub count_from : TrajectoryGraph G → List ℕ → List ℕ → ℕ → ℕ
  unfolding search
  count_from g [] seen components = components
  count_from g (id ∷ ids) seen components =
      if contains seen id
      then count_from g ids seen components
      else count_from g ids
          (search g (length g.points) (record { seen = id ∷ seen; pending = id ∷ [] })).seen
          (suc components)

  unfoldable pub connected_components : TrajectoryGraph G → ℕ
  unfolding count_from
  connected_components g = count_from g (keys g.points) [] 0
