-- ===== src/Trajectory/Tool.antt =====
-- trajectory_graph_lite/src/trajectory_graph_cli.cpp.
use accelsim_lite.Trajectory.Turns.{summarize, GraphSummary}
use accelsim_lite.Prelude.Text.{Text, codes}
use accelsim_lite.Prelude.{
  ◌≡◌, ◌⊎◌, inl, inr, Option, List, [], ◌∷◌, ◌++◌, arith, Result, succeed, throw, ◌>>=◌,
  Result-cases, refl,
}
use accelsim_lite.Workload.{LoadError}
use accelsim_lite.Trajectory.{Geometry}
use accelsim_lite.Trajectory.Parse.{ParseError, ParsedTrajectory, parse_trajectory_csv, edge_result}
use accelsim_lite.Trajectory.Reach.{HasComponents}
use accelsim_lite.Trajectory.Parse.Analysis.{parse_trajectory_csv-summarize}
use accelsim_lite.Prelude.Decimal.{decimal}
use accelsim_lite.Prelude.Tools.{nothing_wrong, failure, ToolExit, usage_error, tool_exit}

module _ (G : Geometry) (stod : Text → Result LoadError G.doubles.Double)
    (format_double : G.doubles.Double → Text) where
  -- What is printed for a summary. `format_double` is the fixed format with three digits.
  unfoldable pub print_summary : GraphSummary G → Text
  print_summary summary =
      codes "{\n  \"nodes\": "
      ++ decimal summary.node_total
      ++ codes ",\n  \"edges\": "
      ++ decimal summary.edge_total
      ++ codes ",\n  \"connected_components\": "
      ++ decimal summary.components
      ++ codes ",\n  \"disconnected_segments\": "
      ++ decimal summary.disconnected_segments
      ++ codes ",\n  \"total_edge_distance\": "
      ++ format_double summary.total_distance
      ++ codes ",\n  \"average_edge_distance\": "
      ++ format_double summary.average_distance
      ++ codes ",\n  \"turn_transitions\": "
      ++ decimal summary.turns
      ++ codes "\n}\n"

  unfoldable pub analyse : (Text → Option Text) → Text → Result ParseError Text
  unfolding print_summary
  analyse read_file path = do
    parsed ← parse_trajectory_csv G stod read_file path
    summary ← edge_result (summarize G parsed.graph parsed.route)
    succeed (print_summary summary)

  -- `main` on the arguments behind the program's name.
  unfoldable pub trajectory_main : (Text → Option Text) → List Text → ToolExit ParseError
  unfolding analyse
  trajectory_main read_file (path ∷ []) = tool_exit (analyse read_file path)
  trajectory_main read_file _ = usage_error

  analysed :
      (read_file : Text → Option Text) (path : Text) (parsed : ParsedTrajectory G stod)
      (summary : GraphSummary G)
      → parse_trajectory_csv G stod read_file path ≡ succeed parsed
      → summarize G parsed.graph parsed.route ≡ succeed summary
      → trajectory_main read_file (path ∷ [])
        ≡ record { exit_code = 0; printed = print_summary summary; complaint = nothing_wrong }
  unfolding trajectory_main analyse
  analysed read_file path parsed summary read summed = simp (read, summed) refl

  -- On one argument the tool fails exactly where the file is refused by `parse_trajectory_csv`, and
  -- then it prints nothing. Otherwise it returns 0 and prints a summary, in which the graph's
  -- components are counted.
  pub trajectory_main-Exits :
      (read_file : Text → Option Text) (path : Text)
      → ((e : ParseError) × (parse_trajectory_csv G stod read_file path ≡ throw e)
          × (trajectory_main read_file (path ∷ [])
              ≡ record { exit_code = 1; printed = []; complaint = failure e }))
        ⊎ ((parsed : ParsedTrajectory G stod) × (summary : GraphSummary G) × (parse_trajectory_csv G
                stod read_file path
              ≡ succeed parsed)
            × HasComponents G parsed.graph summary.components
            × (trajectory_main read_file (path ∷ []) ≡ record {
              exit_code = 0;
              printed = print_summary summary;
              complaint = nothing_wrong;
            }))
  unfolding trajectory_main analyse
  trajectory_main-Exits read_file path =
      elim (Result-cases (parse_trajectory_csv G stod read_file path)) [
        | inr (e, refused) ↦ inl (e, refused, ground (arith, refused))
        | inl (parsed, read) ↦
            let (v, summary, summed, counted, segments) =
              parse_trajectory_csv-summarize G stod read_file path parsed read in
            inr (parsed, summary, read, counted, analysed read_file path parsed summary read summed)
      ]
