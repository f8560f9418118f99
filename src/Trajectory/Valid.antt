-- ===== src/Trajectory/Valid.antt =====
-- The adjacency lists of a trajectory graph say what its edges say.
use accelsim_lite.Prelude.{
  ℕ, ◌≡◌, refl, Bool, true, false, ◌&&◌, ◌||◌, Option, none, some, List, [], ◌∷◌, ◌++◌, arith, ◌==◌,
  contains, contains-append, ap, ◌∙◌, ◌⊎◌, inl, inr, Option-cases, succeed, throw, ==_iff,
  Bool-cases, suc, sym, subst, length, length-append, succeed_injective,
}
use accelsim_lite.Trajectory.{
  Geometry, Edge, TrajectoryGraph, new_graph, neighbors, keep_neighbors, push_neighbor,
  unknown_edge, Point, distance_between, add_point, has_point, point_at, edge_distance, add_edge,
  set_point, edge_count,
}
use accelsim_lite.Prelude.Maps.{
  keys, find_key, update_key, find_key-update_key, keys-update_key, find_key-keys,
}

or_assoc : (x y z : Bool) → ((x || y) || z) ≡ (x || (y || z))
or_assoc true y z = refl
or_assoc false y z = refl

module _ (G : Geometry) where
  -- Whether the edge has the two ends.
  abbrev joins : Edge G → ℕ → ℕ → Bool
  joins edge a b = ((edge.from == a) && (edge.to == b)) || ((edge.to == a) && (edge.from == b))

  abbrev pub joined : List (Edge G) → ℕ → ℕ → Bool
  joined [] a b = false
  joined (edge ∷ edges) a b = joins edge a b || joined edges a b

  -- Every end of an edge is a point, and a point's neighbours are the other ends of its edges.
  pub record IsValid (g : TrajectoryGraph G) : Type 0 where
    pub known : (a b : ℕ) → joined g.edges a b ≡ true → contains (keys g.points) a ≡ true
    pub adjacent : (a b : ℕ) → contains (neighbors G g a) b ≡ joined g.edges a b

  pub joined_comm : (edges : List (Edge G)) (a b : ℕ) → joined edges a b ≡ joined edges b a
  joined_comm [] a b = refl
  joined_comm (edge ∷ edges) a b = ground (arith, joined_comm edges a b)

  joined-concat :
      (edges : List (Edge G)) (edge : Edge G) (a b : ℕ)
      → joined (edges ++ edge ∷ []) a b ≡ (joined edges a b || joins edge a b)
  joined-concat [] edge a b = ground arith
  joined-concat (e ∷ edges) edge a b = ground (arith, joined-concat edges edge a b)

  pub new_graph-IsValid : IsValid (new_graph G)
  new_graph-IsValid = record { known = λ a b h. ground arith; adjacent = λ a b. refl }

  contains-push :
      (id : ℕ) (old : Option (List ℕ)) (b : ℕ)
      → contains (push_neighbor G id old) b ≡ (contains (keep_neighbors G old) b || (id == b))
  contains-push id none b = ground arith
  contains-push id (some old) b = ground (arith, contains-append old (id ∷ []) b)

  -- A new point changes no neighbours, and it stays where it is known.
  pub add_point-IsValid :
      (point : Point G) (g : TrajectoryGraph G) → IsValid g → IsValid (add_point G point g)
  unfolding add_point
  add_point-IsValid point g v = record {
    known = λ a b h.
        keys-update_key point.id a (set_point G point) g.points ∙ ground (arith, v.known a b h);
    adjacent = λ a b.
        ap (λ o. contains (keep_neighbors G o) b)
          (find_key-update_key point.id a (keep_neighbors G) g.adjacency)
        ∙ ground (arith, v.adjacent a b);
  }

  contains-update_key :
      (key id : ℕ) (adjacency : List (ℕ × List ℕ)) (a b : ℕ)
      → contains (keep_neighbors G (find_key a (update_key key (push_neighbor G id) adjacency))) b
        ≡ (contains (keep_neighbors G (find_key a adjacency)) b || ((key == a) && (id == b)))
  contains-update_key key id adjacency a b =
      ap (λ o. contains (keep_neighbors G o) b)
        (find_key-update_key key a (push_neighbor G id) adjacency)
      ∙ elim (Bool-cases (key == a)) [
        | inl e ↦ simp e (
            contains-push id (find_key key adjacency) b
            ∙ ap (λ k. contains (keep_neighbors G (find_key k adjacency)) b || (id == b))
                ((==_iff key a).0 e))
        | inr e ↦ ground (arith, e)
      ]

  neighbors-add_edge :
      (from to : ℕ) (adjacency : List (ℕ × List ℕ)) (a b : ℕ)
      → contains
          (keep_neighbors G (
            find_key a (
              update_key to
                (push_neighbor G from)
                (update_key from (push_neighbor G to) adjacency))))
          b
        ≡ (contains (keep_neighbors G (find_key a adjacency)) b
            || (((from == a) && (to == b)) || ((to == a) && (from == b))))
  neighbors-add_edge from to adjacency a b =
      contains-update_key to from (update_key from (push_neighbor G to) adjacency) a b
      ∙ (ap (λ x. x || ((to == a) && (from == b))) (contains-update_key from to adjacency a b)
          ∙ or_assoc (contains (keep_neighbors G (find_key a adjacency)) b)
              ((from == a) && (to == b)) ((to == a) && (from == b)))

  has_point-keys :
      (g : TrajectoryGraph G) (id : ℕ)
      → has_point G g id ≡ true
      → contains (keys g.points) id ≡ true
  unfolding has_point
  has_point-keys g id h = find_key-keys id g.points (λ e. ground (arith, e))

  -- What `add_edge` does: without one of the points it throws, else the graph has one more edge.
  pub add_edge-cases :
      (from to : ℕ) (g : TrajectoryGraph G)
      → ((add_edge G from to g ≡ throw unknown_edge)
          × ((has_point G g from ≡ false) ⊎ (has_point G g to ≡ false)))
        ⊎ ((distance : G.doubles.Double) × (has_point G g from ≡ true)
            × (has_point G g to ≡ true)
            × (add_edge G from to g
                ≡ succeed (record g {
                  edges = g.edges ++ record { from = from; to = to; distance = distance } ∷ [];
                  adjacency =
                      update_key to
                        (push_neighbor G from)
                        (update_key from (push_neighbor G to) g.adjacency);
                })))
  unfolding add_edge has_point edge_distance point_at
  add_edge-cases from to g = elim (Option-cases (find_key from g.points)) [
    | inl e ↦ inl (ground (arith, e), inl (ground (arith, e)))
    | inr (a, e) ↦ elim (Option-cases (find_key to g.points)) [
      | inl k ↦ inl (ground (arith, e, k), inr (ground (arith, k)))
      | inr (b, k) ↦
          inr (distance_between G a b, ground (arith, e), ground (arith, k), ground (arith, e, k))
    ]
  ]

  new_known :
      (g : TrajectoryGraph G) (edge : Edge G) (a b : ℕ)
      → IsValid g
      → contains (keys g.points) edge.from ≡ true
      → contains (keys g.points) edge.to ≡ true
      → (joined g.edges a b || joins edge a b) ≡ true
      → contains (keys g.points) a ≡ true
  new_known g edge a b v known_from known_to j = elim (Bool-cases (edge.from == a)) [
    | inl e ↦ subst (λ n. contains (keys g.points) n ≡ true) ((==_iff edge.from a).0 e) known_from
    | inr e ↦ elim (Bool-cases (edge.to == a)) [
      | inl k ↦ subst (λ n. contains (keys g.points) n ≡ true) ((==_iff edge.to a).0 k) known_to
      | inr k ↦ v.known a b (ground (arith, e, k, j))
    ]
  ]

  add_point_found :
      (point : Point G) (g : TrajectoryGraph G)
      → find_key point.id (add_point G point g).points ≡ some point
  unfolding add_point
  add_point_found point g =
      find_key-update_key point.id point.id (set_point G point) g.points ∙ ground arith

  -- An edge that is added keeps the graph valid.
  pub add_edge-IsValid :
      (from to : ℕ) (g h : TrajectoryGraph G)
      → add_edge G from to g ≡ succeed h
      → IsValid g
      → IsValid h
  add_edge-IsValid from to g h e v = elim (add_edge-cases from to g) [
    | inl (thrown, unknown) ↦ cc
    | inr (distance, has_from, has_to, added) ↦
        let edge : Edge G = record { from = from; to = to; distance = distance } in
        let longer : TrajectoryGraph G = record g {
          edges = g.edges ++ edge ∷ [];
          adjacency =
              update_key to (push_neighbor G from)
                (update_key from (push_neighbor G to) g.adjacency);
        } in
        let known_from = has_point-keys g from has_from in
        let known_to = has_point-keys g to has_to in
        subst IsValid (succeed_injective refl added e) (record {
          known = λ a b j.
              new_known g edge a b v known_from known_to (sym (joined-concat g.edges edge a b) ∙ j);
          adjacent = λ a b.
              neighbors-add_edge from to g.adjacency a b
              ∙ (ap (λ x. x || joins edge a b) (v.adjacent a b)
                  ∙ sym (joined-concat g.edges edge a b));
        })
  ]

  -- What `add_point` and `add_edge` do to a valid graph.
  pub record GraphLaws (g : TrajectoryGraph G) : Type 0 where
    pub point_kept : (point : Point G) → IsValid (add_point G point g)
    pub point_found :
        (point : Point G) → find_key point.id (add_point G point g).points ≡ some point
    pub edge_kept :
        (from to : ℕ) (h : TrajectoryGraph G)
        → add_edge G from to g ≡ succeed h
        → IsValid h × (joined h.edges from to ≡ true) × (edge_count G h ≡ suc (edge_count G g))
    pub no_point_added :
        (from to : ℕ) (h : TrajectoryGraph G)
        → add_edge G from to g ≡ succeed h
        → h.points ≡ g.points
    pub edge_allowed :
        (from to : ℕ)
        → has_point G g from ≡ true
        → has_point G g to ≡ true
        → (h : TrajectoryGraph G) × (add_edge G from to g ≡ succeed h)
    pub edge_refused :
        (from to : ℕ)
        → (has_point G g from ≡ false) ⊎ (has_point G g to ≡ false)
        → add_edge G from to g ≡ throw unknown_edge

  edge_added :
      (from to : ℕ) (g h : TrajectoryGraph G)
      → add_edge G from to g ≡ succeed h
      → (joined h.edges from to ≡ true) × (edge_count G h ≡ suc (edge_count G g))
  unfolding edge_count
  edge_added from to g h e = elim (add_edge-cases from to g) [
    | inl (thrown, unknown) ↦ cc
    | inr (distance, has_from, has_to, added) ↦
        let edge : Edge G = record { from = from; to = to; distance = distance } in
        let same = ap (λ g. g.edges) (succeed_injective refl added e) in
        (
          ap (λ es. joined es from to) (sym same)
              ∙ (joined-concat g.edges edge from to ∙ ground arith),
          omega (arith, ap length same, length-append g.edges (edge ∷ [])),
        )
  ]

  pub add_edge-points :
      (from to : ℕ) (g h : TrajectoryGraph G)
      → add_edge G from to g ≡ succeed h
      → h.points ≡ g.points
  add_edge-points from to g h e = elim (add_edge-cases from to g) [
    | inl (thrown, unknown) ↦ cc
    | inr (distance, has_from, has_to, added) ↦
        sym (ap (λ g. g.points) (succeed_injective refl added e))
  ]

  known_allows :
      (from to : ℕ) (g : TrajectoryGraph G)
      → has_point G g from ≡ true
      → has_point G g to ≡ true
      → (h : TrajectoryGraph G) × (add_edge G from to g ≡ succeed h)
  known_allows from to g has_from has_to = elim (add_edge-cases from to g) [
    | inl (thrown, inl unknown) ↦ absurd (cc)
    | inl (thrown, inr unknown) ↦ absurd (cc)
    | inr (distance, k, l, added) ↦ (_, added)
  ]

  unknown_refuses :
      (from to : ℕ) (g : TrajectoryGraph G)
      → (has_point G g from ≡ false) ⊎ (has_point G g to ≡ false)
      → add_edge G from to g ≡ throw unknown_edge
  unknown_refuses from to g unknown = elim (add_edge-cases from to g) [
    | inl (thrown, _) ↦ thrown
    | inr (distance, has_from, has_to, added) ↦ elim unknown [
      | inl k ↦ absurd (cc)
      | inr k ↦ absurd (cc)
    ]
  ]

  -- On a valid graph `add_point` keeps it valid and makes the point the one of its identifier.
  -- `add_edge` throws the exception for an unknown point if one of the two points is unknown; if
  -- both are known it succeeds, keeps the graph valid and its points as they are, and adds one edge,
  -- which joins the two points.
  pub graph-GraphLaws : (g : TrajectoryGraph G) → IsValid g → GraphLaws g
  graph-GraphLaws g v = record {
    point_kept = λ point. add_point-IsValid point g v;
    point_found = λ point. add_point_found point g;
    edge_kept = λ from to h e.
        let added = edge_added from to g h e in
        (add_edge-IsValid from to g h e v, added.0, added.1);
    no_point_added = λ from to h. add_edge-points from to g h;
    edge_allowed = λ from to. known_allows from to g;
    edge_refused = λ from to. unknown_refuses from to g;
  }
