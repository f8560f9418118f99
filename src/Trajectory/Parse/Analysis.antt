-- ===== src/Trajectory/Parse/Analysis.antt =====
-- A trajectory that has been read can be analysed.
use accelsim_lite.Trajectory.Valid.{
  IsValid, add_point-IsValid, add_edge-IsValid, add_edge-points, new_graph-IsValid,
}
use accelsim_lite.Prelude.{
  ℕ, ◌-◌, ◌≡◌, refl, sym, subst, ◌∙◌, inl, inr, true, ◌||◌, Option, List, [], ◌∷◌, arith, ◌==◌,
  Bool-cases, All-append, Result, succeed, >>=-succeeds, Result-cases, succeed_injective,
  Option-cases, All-map,
}
use accelsim_lite.Workload.{get_items, LoadError, stoull}
use accelsim_lite.Trajectory.{
  Geometry, Point, TrajectoryGraph, add_point, has_point, add_edge, set_point,
}
use accelsim_lite.Csv.{field, for_rows, for_rows-keeps}
use accelsim_lite.Trajectory.Turns.{GraphSummary, summarize, summary_with}
use accelsim_lite.Trajectory.Parse.{
  ParsedTrajectory, Parsing, parse_next, parse_point, add_edges, parse_content,
  parse_trajectory_csv, number, edge_result, has_next, point_parsed, new_parsing,
}
use accelsim_lite.Trajectory.Reach.{HasComponents}
use accelsim_lite.Trajectory.Turns.Routes.{IsRoute, turn_transitions-succeeds}
use accelsim_lite.Prelude.Text.{Text}
use accelsim_lite.Prelude.Maps.{find_key-update_key}
use accelsim_lite.Trajectory.Reach.Counting.{connected_components-HasComponents}

module _ (G : Geometry) (stod : Text → Result LoadError G.doubles.Double) where
  -- The graph is valid and has each stop of the route.
  pub record IsParsed (parsed : ParsedTrajectory G stod) : Type 0 where
    pub valid : IsValid G parsed.graph
    pub on_graph : IsRoute G parsed.graph parsed.route

  has_point-add_point :
      (point : Point G) (g : TrajectoryGraph G) (id : ℕ)
      → has_point G (add_point G point g) id ≡ ((point.id == id) || has_point G g id)
  unfolding has_point add_point
  has_point-add_point point g id =
      let found = find_key-update_key point.id id (set_point G point) g.points in
      elim (Bool-cases (point.id == id)) [
        | inl e ↦ ground (arith, found, e)
        | inr e ↦ ground (arith, found, e)
      ]

  same_points :
      (g h : TrajectoryGraph G)
      → g.points ≡ h.points
      → (id : ℕ) → has_point G g id ≡ has_point G h id
  unfolding has_point
  same_points g h e id = rw e refl

  point_parsed-IsParsed :
      (point : Point G) (s : Parsing G stod)
      → IsParsed s.parsed
      → IsParsed (point_parsed G stod point s).parsed
  point_parsed-IsParsed point s v =
      let h = add_point G point s.parsed.graph in
      let kept : (id : ℕ) → has_point G s.parsed.graph id ≡ true → has_point G h id ≡ true =
        λ id k. has_point-add_point point s.parsed.graph id ∙ ground (arith, k) in
      record {
        valid = add_point-IsValid G point s.parsed.graph v.valid;
        on_graph =
            All-append (λ id. has_point G h id ≡ true) s.parsed.route (point.id ∷ [])
              (All-map (λ id. has_point G s.parsed.graph id ≡ true) (λ id. has_point G h id ≡ true)
                s.parsed.route kept v.on_graph)
              (has_point-add_point point s.parsed.graph point.id ∙ ground arith, tt);
      }

  parse_next-keeps :
      (id : ℕ) (next : Text) (s t : Parsing G stod)
      → parse_next G stod id next s ≡ succeed t
      → t.parsed ≡ s.parsed
  unfolding parse_next
  parse_next-keeps id next s t e = elim (Result-cases (stoull next)) [
    | inl (to, k) ↦ elim (Bool-cases (has_next G stod next)) [
      | inl b ↦ ground arith
      | inr b ↦ ground arith
    ]
    | inr (x, k) ↦ elim (Bool-cases (has_next G stod next)) [
      | inl b ↦ absurd (ground arith)
      | inr b ↦ ground arith
    ]
  ]

  parse_point-IsParsed :
      (line : Text) (s t : Parsing G stod)
      → parse_point G stod line s ≡ succeed t
      → IsParsed s.parsed
      → IsParsed t.parsed
  unfolding parse_point
  parse_point-IsParsed line s t e v =
      let fields = get_items b',' [] line in
      let (id, e1, k1) = >>=-succeeds (number (stoull (field fields 0))) _ e in
      let (x, e2, k2) = >>=-succeeds (number (stod (field fields 1))) _ k1 in
      let (y, e3, k3) = >>=-succeeds (number (stod (field fields 2))) _ k2 in
      let point : Point G = record { id = id; x = x; y = y } in
      subst IsParsed (sym (parse_next-keeps id (field fields 3) (point_parsed G stod point s) t k3))
        (point_parsed-IsParsed point s v)

  edge-IsParsed :
      (from to : ℕ) (g h : TrajectoryGraph G) (route : List ℕ)
      → edge_result (add_edge G from to g) ≡ succeed h
      → IsParsed (record { graph = g; route = route })
      → IsParsed (record { graph = h; route = route })
  edge-IsParsed from to g h route e v = elim (Result-cases (add_edge G from to g)) [
    | inr (x, k) ↦ absurd (ground arith)
    | inl (g', k) ↦
        let added : add_edge G from to g ≡ succeed h = ground arith in
        record {
          valid = add_edge-IsValid G from to g h added v.valid;
          on_graph =
              All-map (λ id. has_point G g id ≡ true) (λ id. has_point G h id ≡ true) route
                (λ id known. same_points h g (add_edge-points G from to g h added) id ∙ known)
                v.on_graph;
        }
  ]

  add_edges-IsParsed :
      (edges : List (ℕ × ℕ)) (g h : TrajectoryGraph G) (route : List ℕ)
      → add_edges G stod edges g ≡ succeed h
      → IsParsed (record { graph = g; route = route })
      → IsParsed (record { graph = h; route = route })
  unfolding add_edges
  add_edges-IsParsed [] g h route e v =
      subst (λ g. IsParsed (record { graph = g; route = route })) (succeed_injective refl refl e) v
  add_edges-IsParsed ((from, to) ∷ edges) g h route e v =
      let (g', e1, rest) = >>=-succeeds (edge_result (add_edge G from to g)) _ e in
      add_edges-IsParsed edges g' h route rest (edge-IsParsed from to g g' route e1 v)

  parse_content-IsParsed :
      (content : Text) (parsed : ParsedTrajectory G stod)
      → parse_content G stod content ≡ succeed parsed
      → IsParsed parsed
  unfolding parse_content
  parse_content-IsParsed content parsed e =
      let lines = get_items b'\n' [] content in
      let (s, read, k) =
        >>=-succeeds (for_rows (parse_point G stod) lines true (new_parsing G stod)) _ e in
      let (graph, added, built) =
        >>=-succeeds (add_edges G stod s.pending_edges s.parsed.graph) _ k in
      let v =
        for_rows-keeps (λ (s : Parsing G stod). IsParsed s.parsed) (parse_point G stod)
          parse_point-IsParsed lines true (new_parsing G stod) s read
          (record { valid = new_graph-IsValid G; on_graph = tt }) in
      subst IsParsed (succeed_injective refl refl built)
        (add_edges-IsParsed s.pending_edges s.parsed.graph graph s.parsed.route added v)

  summarize-succeeds :
      (g : TrajectoryGraph G) (route : List ℕ)
      → IsValid G g
      → IsRoute G g route
      → (summary : GraphSummary G) × (summarize G g route ≡ succeed summary)
        × HasComponents G g summary.components
        × (summary.disconnected_segments ≡ summary.components - 1)
  unfolding summarize summary_with
  summarize-succeeds g route v on_graph =
      let (n, e) = turn_transitions-succeeds G g (G.doubles.of_size 20) route on_graph in
      (summary_with G g n, simp e refl, connected_components-HasComponents G g v, refl)

  -- A file that `parse_trajectory_csv` accepts gives a valid graph with every stop of the route on
  -- it, and then `summarize` throws no exception and counts the components of the graph.
  pub parse_trajectory_csv-summarize :
      (read_file : Text → Option Text) (path : Text) (parsed : ParsedTrajectory G stod)
      → parse_trajectory_csv G stod read_file path ≡ succeed parsed
      → IsParsed parsed
        × (summary : GraphSummary G) × (summarize G parsed.graph parsed.route ≡ succeed summary)
        × HasComponents G parsed.graph summary.components
        × (summary.disconnected_segments ≡ summary.components - 1)
  unfolding parse_trajectory_csv
  parse_trajectory_csv-summarize read_file path parsed e = elim (Option-cases (read_file path)) [
    | inl none_read ↦ absurd (ground arith)
    | inr (content, has_content) ↦
        let v = parse_content-IsParsed content parsed (ground arith) in
        let (summary, summed, counted, segments) =
          summarize-succeeds parsed.graph parsed.route v.valid v.on_graph in
        (v, summary, summed, counted, segments)
  ]
