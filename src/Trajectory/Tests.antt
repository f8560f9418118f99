-- ===== src/Trajectory/Tests.antt =====
-- A trajectory of six points in three components, with the witnesses of the theorems on it.
use accelsim_lite.Trajectory.Tool.{print_summary, trajectory_main, trajectory_main-Exits}
use accelsim_lite.Trajectory.Turns.{summarize, disconnected_nodes, turn_transitions, GraphSummary}
use accelsim_lite.Trajectory.Valid.{IsValid, joined, GraphLaws, graph-GraphLaws}
use accelsim_lite.Prelude.{
  ℕ, ◌+◌, ◌-◌, ◌≤◌, ◌≡◌, refl, ◌↔◌, ◌⊎◌, true, false, Option, some, [], ◌∷◌, arith, contains,
  succeed, throw,
}
use accelsim_lite.Workload.{
  get_items, is_space, is_digit, skip_space, read_digits, magnitude, stoull,
}
use accelsim_lite.Trajectory.{
  Geometry, unknown_route, Point, TrajectoryGraph, distance_between, add_point, has_point, point_at,
  edge_distance, add_edge,
}
use accelsim_lite.Csv.{for_rows}
use accelsim_lite.Trajectory.Components.{visit_neighbors, search, count_from, connected_components}
use accelsim_lite.Trajectory.Parse.{
  ParsedTrajectory, parse_next, parse_point, add_edges, parse_content, parse_trajectory_csv,
  ParseError,
}
use accelsim_lite.Trajectory.Reach.{HasComponents}
use accelsim_lite.Trajectory.Turns.Routes.{IsRoute, turn_transitions-Outcome}
use accelsim_lite.Trajectory.Turns.Lonely.{disconnected_nodes-IsSorted}
use accelsim_lite.Trajectory.Parse.Analysis.{IsParsed, parse_trajectory_csv-summarize}
use accelsim_lite.Trajectory.Reach.Counting.{connected_components-HasComponents}
use accelsim_lite.Workload.Load.{starts_with}
use accelsim_lite.Prelude.Text.{Text, codes}
use accelsim_lite.Prelude.Maps.{keys}
use accelsim_lite.Prelude.Sorting.{IsSorted}
use accelsim_lite.Prelude.Doubles.Whole.{whole_numbers}
use accelsim_lite.Prelude.Tools.{nothing_wrong, failure}

abbrev plane : Geometry
plane = record { doubles = whole_numbers; sqrt = λ x. x; acos = λ x. x }

abbrev content : Text
content = codes "id,x,y,next\n1,0,0,2\n2,3,4,3\n\n3,9,9,-1\n4,1,1,5\n5,2,2,\n6,7,7,\n"

abbrev read_file : Text → Option Text
read_file path = some content

abbrev path : Text
path = codes "trajectory.csv"

accepted :
    (parsed : ParsedTrajectory plane stoull) × (parse_trajectory_csv plane stoull read_file path
      ≡ succeed parsed)
unfolding parse_trajectory_csv parse_content for_rows get_items starts_with stoull skip_space
    is_space magnitude is_digit read_digits parse_point parse_next add_point add_edges add_edge
    has_point edge_distance point_at distance_between
accepted = (_, refl)

abbrev point : ℕ → Point plane
point id = record { id = id; x = id; y = 0 }

-- The same shape, with three components.
abbrev graph : TrajectoryGraph plane
graph = record {
  points =
      (1, point 1) ∷ (2, point 2) ∷ (3, point 3) ∷ (4, point 4) ∷ (5, point 5) ∷ (6, point 6) ∷ [];
  adjacency =
      (1, 2 ∷ []) ∷ (2, 1 ∷ 3 ∷ []) ∷ (3, 2 ∷ []) ∷ (4, 5 ∷ []) ∷ (5, 4 ∷ []) ∷ (6, []) ∷ [];
  edges =
      record { from = 1; to = 2; distance = 1 }
      ∷ record { from = 2; to = 3; distance = 1 }
      ∷ record { from = 4; to = 5; distance = 1 }
      ∷ [];
}

three_components : connected_components plane graph ≡ 3
unfolding connected_components count_from search visit_neighbors
three_components = refl

accepted_summarized :
    IsParsed plane stoull accepted.0
    × (summary : GraphSummary plane) × (summarize plane accepted.0.graph accepted.0.route
        ≡ succeed summary)
    × HasComponents plane accepted.0.graph summary.components
    × (summary.disconnected_segments ≡ summary.components - 1)
accepted_summarized =
    parse_trajectory_csv-summarize plane stoull read_file path accepted.0 accepted.1

accepted-IsValid : IsValid plane accepted.0.graph
accepted-IsValid =
    (parse_trajectory_csv-summarize plane stoull read_file path accepted.0 accepted.1).0.valid

connected_components-HasComponents_example :
    HasComponents plane accepted.0.graph (connected_components plane accepted.0.graph)
connected_components-HasComponents_example =
    connected_components-HasComponents plane accepted.0.graph accepted-IsValid

disconnected_nodes-IsSorted_example :
    IsSorted (disconnected_nodes plane accepted.0.graph)
    × ((a : ℕ)
        → (contains (disconnected_nodes plane accepted.0.graph) a ≡ true) ↔ (
            (contains (keys accepted.0.graph.points) a ≡ true)
            × ((b : ℕ) → joined plane accepted.0.graph.edges a b ≡ false)))
disconnected_nodes-IsSorted_example =
    disconnected_nodes-IsSorted plane accepted.0.graph accepted-IsValid

graph-GraphLaws_example : GraphLaws plane accepted.0.graph
graph-GraphLaws_example = graph-GraphLaws plane accepted.0.graph accepted-IsValid

turn_transitions-Outcome_example :
    (IsRoute plane graph (1 ∷ 2 ∷ 3 ∷ 9 ∷ [])
      × (n : ℕ) × (turn_transitions plane graph (1 ∷ 2 ∷ 3 ∷ 9 ∷ []) 20 ≡ succeed n)
      × (n + 2 ≤ 4))
    ⊎ ((¬ IsRoute plane graph (1 ∷ 2 ∷ 3 ∷ 9 ∷ []))
        × (turn_transitions plane graph (1 ∷ 2 ∷ 3 ∷ 9 ∷ []) 20 ≡ throw unknown_route))
turn_transitions-Outcome_example =
    turn_transitions-Outcome plane graph 20 (1 ∷ 2 ∷ 3 ∷ 9 ∷ []) (omega arith)

abbrev shown : ℕ → Text
shown n = []

trajectory_main-Exits_example :
    ((e : ParseError) × (parse_trajectory_csv plane stoull read_file path ≡ throw e)
      × (trajectory_main plane stoull shown read_file (path ∷ [])
          ≡ record { exit_code = 1; printed = []; complaint = failure e }))
    ⊎ ((parsed : ParsedTrajectory plane stoull) × (summary : GraphSummary plane)
        × (parse_trajectory_csv plane stoull read_file path ≡ succeed parsed)
        × HasComponents plane parsed.graph summary.components
        × (trajectory_main plane stoull shown read_file (path ∷ []) ≡ record {
          exit_code = 0;
          printed = print_summary plane stoull shown summary;
          complaint = nothing_wrong;
        }))
trajectory_main-Exits_example = trajectory_main-Exits plane stoull shown read_file path
