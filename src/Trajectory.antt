-- ===== src/Trajectory.antt =====
-- trajectory_graph_lite/src/trajectory_graph.cpp: `TrajectoryGraph` over any arithmetic for
-- `double`. The hash maps are lists of pairs, in which a new key stands at the end; the source leaves
-- the order of the keys open.
pub mod Components
pub mod Reach
pub mod Valid
pub mod Turns
pub mod Parse
pub mod Tool
mod Tests
use accelsim_lite.Prelude.{
  ℕ, Bool, true, false, not, ◌||◌, Option, none, some, List, [], ◌∷◌, ◌++◌, if◌then◌else◌, length,
  Result, succeed, throw, ◌>>=◌,
}
use accelsim_lite.Prelude.Doubles.{Doubles}
use accelsim_lite.Prelude.Maps.{find_key, update_key}

-- The functions of <cmath> and of the arithmetic that the graph uses.
pub record Geometry : Type 1 where
  pub doubles : Doubles
  pub sqrt : doubles.Double → doubles.Double
  pub acos : doubles.Double → doubles.Double

-- The exceptions: those of `add_edge` and `turn_transitions`, and `at` without the key.
pub data GraphError : Type 0 where
  unknown_edge unknown_route no_key : GraphError

module _ (G : Geometry) where
  pub record Point : Type 0 where
    pub id : ℕ
    pub x : G.doubles.Double
    pub y : G.doubles.Double

  pub record Edge : Type 0 where
    pub from : ℕ
    pub to : ℕ
    pub distance : G.doubles.Double

  pub record TrajectoryGraph : Type 0 where
    pub points : List (ℕ × Point)
    pub adjacency : List (ℕ × List ℕ)
    pub edges : List Edge

  abbrev pub new_graph : TrajectoryGraph
  new_graph = record { points = []; adjacency = []; edges = [] }

  unfoldable pub distance_between : Point → Point → G.doubles.Double
  distance_between a b =
      let F = G.doubles in
      let dx = F.minus b.x a.x in
      let dy = F.minus b.y a.y in G.sqrt (F.plus (F.times dx dx) (F.times dy dy))

  -- The new value of a map's entry: the point, or the neighbours that are there already.

  abbrev set_point : Point → Option Point → Point
  set_point point old = point

  abbrev keep_neighbors : Option (List ℕ) → List ℕ
  keep_neighbors none = []
  keep_neighbors (some old) = old

  abbrev push_neighbor : ℕ → Option (List ℕ) → List ℕ
  push_neighbor id none = id ∷ []
  push_neighbor id (some old) = old ++ id ∷ []

  unfoldable pub add_point : Point → TrajectoryGraph → TrajectoryGraph
  add_point point g = record g {
    points = update_key point.id (set_point point) g.points;
    adjacency = update_key point.id keep_neighbors g.adjacency;
  }

  unfoldable pub has_point : TrajectoryGraph → ℕ → Bool
  has_point g id = elim (find_key id g.points) [ none ↦ false | some point ↦ true ]

  -- `points_.at`.
  unfoldable pub point_at : TrajectoryGraph → ℕ → Result GraphError Point
  point_at g id = elim (find_key id g.points) [ none ↦ throw no_key | some point ↦ succeed point ]

  unfoldable pub edge_distance : TrajectoryGraph → ℕ → ℕ → Result GraphError G.doubles.Double
  unfolding point_at distance_between
  edge_distance g from to =
      point_at g from >>= λ a. point_at g to >>= λ b. succeed (distance_between a b)

  unfoldable pub add_edge : ℕ → ℕ → TrajectoryGraph → Result GraphError TrajectoryGraph
  unfolding has_point edge_distance
  add_edge from to g =
      if not (has_point g from) || not (has_point g to)
      then throw unknown_edge
      else edge_distance g from to >>= λ distance. succeed (record g {
        edges = g.edges ++ record { from = from; to = to; distance = distance } ∷ [];
        adjacency =
            update_key to (push_neighbor from) (update_key from (push_neighbor to) g.adjacency);
      })

  unfoldable pub node_count : TrajectoryGraph → ℕ
  node_count g = length g.points

  unfoldable pub edge_count : TrajectoryGraph → ℕ
  edge_count g = length g.edges

  -- The entry of the adjacency map, without one for a point that has none.
  abbrev pub neighbors : TrajectoryGraph → ℕ → List ℕ
  neighbors g id = keep_neighbors (find_key id g.adjacency)
