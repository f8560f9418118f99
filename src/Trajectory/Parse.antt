-- ===== src/Trajectory/Parse.antt =====
-- `parse_trajectory_csv` of trajectory_graph_lite/src/trajectory_graph.cpp.
pub mod Analysis
use accelsim_lite.Prelude.{
  ℕ, Bool, true, not, ◌&&◌, Option, none, some, List, [], ◌∷◌, ◌++◌, if◌then◌else◌, is_empty,
  Result, succeed, throw, ◌>>=◌,
}
use accelsim_lite.Workload.{get_items, LoadError, stoull}
use accelsim_lite.Trajectory.{
  Geometry, GraphError, TrajectoryGraph, new_graph, add_point, add_edge, Point,
}
use accelsim_lite.Csv.{field, for_rows}
use accelsim_lite.Prelude.Text.{Text, codes, text_eq}

-- Its exceptions, with those of `std::stoull` and `std::stod`.
pub data ParseError : Type 0 where
  no_file : Text → ParseError
  bad_number : LoadError → ParseError
  bad_edge : GraphError → ParseError

-- A number that a row has, or the exception.
abbrev number : {A : Type 0} → Result LoadError A → Result ParseError A
number (succeed a) = succeed a
number (throw e) = throw (bad_number e)

abbrev pub edge_result : {A : Type 0} → Result GraphError A → Result ParseError A
edge_result (succeed a) = succeed a
edge_result (throw e) = throw (bad_edge e)

-- `stod` is `std::stod`.
module _ (G : Geometry) (stod : Text → Result LoadError G.doubles.Double) where
  pub record ParsedTrajectory : Type 0 where
    pub graph : TrajectoryGraph G
    pub route : List ℕ

  -- The trajectory so far, with the edges that wait for the last point.
  pub record Parsing : Type 0 where
    pub parsed : ParsedTrajectory
    pub pending_edges : List (ℕ × ℕ)

  -- Whether the last field of a row names a next point.
  abbrev has_next : Text → Bool
  has_next next = not (is_empty next) && not (text_eq next (codes "-1"))

  -- The rest of a row, after its point.
  unfoldable pub parse_next : ℕ → Text → Parsing → Result ParseError Parsing
  parse_next id next s = if not (has_next next) then succeed s else do
    to ← number (stoull next)
    succeed (record s { pending_edges = s.pending_edges ++ (id, to) ∷ [] })

  abbrev point_parsed : Point G → Parsing → Parsing
  point_parsed point s = record s {
    parsed = record {
      graph = add_point G point s.parsed.graph;
      route = s.parsed.route ++ point.id ∷ [];
    };
  }

  unfoldable pub parse_point : Text → Parsing → Result ParseError Parsing
  unfolding parse_next
  parse_point line s = do
    let fields = get_items b',' [] line
    id ← number (stoull (field fields 0))
    x ← number (stod (field fields 1))
    y ← number (stod (field fields 2))
    parse_next id (field fields 3) (point_parsed (record { id = id; x = x; y = y }) s)

  unfoldable pub add_edges :
      List (ℕ × ℕ) → TrajectoryGraph G → Result ParseError (TrajectoryGraph G)
  add_edges [] g = succeed g
  add_edges ((from, to) ∷ edges) g = edge_result (add_edge G from to g) >>= add_edges edges

  abbrev new_parsing : Parsing
  new_parsing = record { parsed = record { graph = new_graph G; route = [] }; pending_edges = [] }

  unfoldable pub parse_content : Text → Result ParseError ParsedTrajectory
  unfolding parse_point add_edges
  parse_content content = do
    s ← for_rows parse_point (get_items b'\n' [] content) true new_parsing
    graph ← add_edges s.pending_edges s.parsed.graph
    succeed (record { graph = graph; route = s.parsed.route })

  -- `read_file` gives the content of a file that can be opened.
  unfoldable pub parse_trajectory_csv :
      (Text → Option Text) → Text → Result ParseError ParsedTrajectory
  unfolding parse_content
  parse_trajectory_csv read_file path = elim (read_file path) [
    | none ↦ throw (no_file path)
    | some content ↦ parse_content content
  ]
