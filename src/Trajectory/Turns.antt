-- ===== src/Trajectory/Turns.antt =====
-- The other queries of `TrajectoryGraph` in trajectory_graph_lite/src/trajectory_graph.cpp.
pub mod Routes
pub mod Lonely
use accelsim_lite.Prelude.{
  ℕ, ◌+◌, ◌-◌, ◌||◌, none, some, List, [], ◌∷◌, if◌then◌else◌, indicator, length, is_empty, Result,
  succeed, throw, ◌>>=◌,
}
use accelsim_lite.Trajectory.{
  Geometry, GraphError, unknown_route, Point, Edge, TrajectoryGraph, node_count, edge_count,
  neighbors,
}
use accelsim_lite.Trajectory.Components.{connected_components}
use accelsim_lite.Prelude.Maps.{find_key, keys}
use accelsim_lite.Prelude.Sorting.{sort_values}
use accelsim_lite.Simulator.Termination.{turns}

module _ (G : Geometry) where
  abbrev Real : Type 0
  Real = G.doubles.Double

  -- The loop of `disconnected_nodes`.
  unfoldable lonely : TrajectoryGraph G → List ℕ → List ℕ
  lonely g [] = []
  lonely g (id ∷ ids) = if is_empty (neighbors G g id) then id ∷ lonely g ids else lonely g ids

  unfoldable pub disconnected_nodes : TrajectoryGraph G → List ℕ
  unfolding lonely sort_values
  disconnected_nodes g = sort_values (lonely g (keys g.points))

  unfoldable sum_distances : List (Edge G) → Real → Real
  sum_distances [] total = total
  sum_distances (edge ∷ edges) total = sum_distances edges (G.doubles.plus total edge.distance)

  unfoldable pub total_edge_distance : TrajectoryGraph G → Real
  unfolding sum_distances
  total_edge_distance g = sum_distances g.edges (G.doubles.of_size 0)

  unfoldable pub average_edge_distance : TrajectoryGraph G → Real
  unfolding total_edge_distance
  average_edge_distance g =
      if is_empty g.edges
      then G.doubles.of_size 0
      else G.doubles.over (total_edge_distance g) (G.doubles.of_size (length g.edges))

  -- `std::clamp`.
  unfoldable clamp : Real → Real → Real → Real
  clamp x low high =
      if G.doubles.is_less x low then low else if G.doubles.is_less high x then high else x

  -- `kPi`.
  abbrev pi : Real
  pi = G.doubles.decimal 314159265358979323846 100000000000000000000

  unfoldable pub turn_angle_degrees : Point G → Point G → Point G → Real
  unfolding clamp
  turn_angle_degrees a b c =
      let F = G.doubles in
      let v1x = F.minus b.x a.x in
      let v1y = F.minus b.y a.y in
      let v2x = F.minus c.x b.x in
      let v2y = F.minus c.y b.y in
      let mag1 = G.sqrt (F.plus (F.times v1x v1x) (F.times v1y v1y)) in
      let mag2 = G.sqrt (F.plus (F.times v2x v2x) (F.times v2y v2y)) in
      let cosine = F.over (F.plus (F.times v1x v2x) (F.times v1y v2y)) (F.times mag1 mag2) in
      let clamped = clamp cosine (F.minus (F.of_size 0) (F.of_size 1)) (F.of_size 1) in
      if F.is_zero mag1 || F.is_zero mag2
      then F.of_size 0
      else F.over (F.times (G.acos clamped) (F.of_size 180)) pi

  -- `points_.find` in the loop, which throws where there is no point.
  unfoldable route_point : TrajectoryGraph G → ℕ → Result GraphError (Point G)
  route_point g id = elim (find_key id g.points) [
    | none ↦ throw unknown_route
    | some point ↦ succeed point
  ]

  -- The loop of `turn_transitions`, on the rest of the route and with the two points before it.
  unfoldable turns_from : TrajectoryGraph G → Real → ℕ → ℕ → List ℕ → ℕ → Result GraphError ℕ
  unfolding route_point turn_angle_degrees
  turns_from g minimum_turn first second [] found = succeed found
  turns_from g minimum_turn first second (third ∷ route) found = route_point g first >>= λ a.
      route_point g second >>= λ b. route_point g third >>= λ c.
      turns_from g minimum_turn second third route
        (found + indicator (G.doubles.at_least (turn_angle_degrees a b c) minimum_turn))

  unfoldable pub turn_transitions : TrajectoryGraph G → List ℕ → Real → Result GraphError ℕ
  unfolding turns_from
  turn_transitions g [] minimum_turn = succeed 0
  turn_transitions g (first ∷ []) minimum_turn = succeed 0
  turn_transitions g (first ∷ second ∷ route) minimum_turn =
      turns_from g minimum_turn first second route 0

  pub record GraphSummary : Type 0 where
    pub node_total : ℕ
    pub edge_total : ℕ
    pub components : ℕ
    pub disconnected_segments : ℕ
    pub total_distance : Real
    pub average_distance : Real
    pub turns : ℕ

  -- The summary with this number of turns.
  unfoldable pub summary_with : TrajectoryGraph G → ℕ → GraphSummary
  unfolding node_count edge_count total_edge_distance average_edge_distance
  summary_with g turns = record {
    node_total = node_count G g;
    edge_total = edge_count G g;
    components = connected_components G g;
    disconnected_segments = connected_components G g - 1;
    total_distance = total_edge_distance g;
    average_distance = average_edge_distance g;
    turns = turns;
  }

  unfoldable pub summarize : TrajectoryGraph G → List ℕ → Result GraphError GraphSummary
  unfolding turn_transitions summary_with
  summarize g route = do
    turns ← turn_transitions g route (G.doubles.of_size 20)
    succeed (summary_with g turns)
