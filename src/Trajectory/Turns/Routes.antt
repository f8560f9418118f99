-- ===== src/Trajectory/Turns/Routes.antt =====
-- What `turn_transitions` says of a route.
use accelsim_lite.Prelude.{
  ℕ, suc, ◌+◌, ◌≤◌, ◌≡◌, refl, ◌⊎◌, inl, inr, true, false, List, [], ◌∷◌, arith, Option-cases,
  indicator, length, All, Result, succeed, throw,
}
use accelsim_lite.Trajectory.{
  Geometry, GraphError, unknown_route, Point, TrajectoryGraph, has_point,
}
use accelsim_lite.Trajectory.Turns.{turn_angle_degrees, turn_transitions, route_point, turns_from}
use accelsim_lite.Prelude.Maps.{find_key}

module _ (G : Geometry) where
  -- Every stop of the route is a point of the graph.
  abbrev pub IsRoute : TrajectoryGraph G → List ℕ → Type 0
  IsRoute g route = All (λ id. has_point G g id ≡ true) route

  known_point :
      (g : TrajectoryGraph G) (id : ℕ)
      → ((has_point G g id ≡ true) × (p : Point G) × (route_point G g id ≡ succeed p))
        ⊎ (has_point G g id ≡ false) × (route_point G g id ≡ throw unknown_route)
  unfolding has_point route_point
  known_point g id = elim (Option-cases (find_key id g.points)) [
    | inl e ↦ inr (ground (arith, e), ground (arith, e))
    | inr (p, e) ↦ inl (ground (arith, e), p, ground (arith, e))
  ]

  -- What the loop returns: a bounded count where all its points are known, and else the exception.
  unfoldable Outcome : TrajectoryGraph G → List ℕ → ℕ → Result GraphError ℕ → Type 0
  Outcome g route bound r =
      (IsRoute g route × (n : ℕ) × (r ≡ succeed n) × (n ≤ bound))
      ⊎ ((¬ IsRoute g route) × (r ≡ throw unknown_route))

  -- One turn of the loop, from the outcome of those behind it.
  one_turn :
      (g : TrajectoryGraph G) (minimum_turn : G.doubles.Double) (first second third : ℕ)
      (route : List ℕ) (found bound : ℕ)
      → ((one : ℕ)
          → one ≤ 1
          → has_point G g second ≡ true
          → has_point G g third ≡ true
          → Outcome g route bound (turns_from G g minimum_turn second third route (found + one)))
      → Outcome g
          (first ∷ second ∷ third ∷ route)
          bound
          (turns_from G g minimum_turn first second (third ∷ route) found)
  unfolding turns_from Outcome
  one_turn g minimum_turn first second third route found bound rest = elim (known_point g first) [
    | inr (k, e) ↦ inr (λ all. absurd (ground (arith, k, all.0)), simp e refl)
    | inl (k1, a, e1) ↦ elim (known_point g second) [
      | inr (k, e) ↦ inr (λ all. absurd (ground (arith, k, all.1.0)), simp (e1, e) refl)
      | inl (k2, b, e2) ↦ elim (known_point g third) [
        | inr (k, e) ↦ inr (λ all. absurd (ground (arith, k, all.1.1.0)), simp (e1, e2, e) refl)
        | inl (k3, c, e3) ↦
            let one = indicator (G.doubles.at_least (turn_angle_degrees G a b c) minimum_turn) in
            elim (rest one (ground arith) k2 k3) [
              | inl (all, n, e, small) ↦ inl ((k1, (k2, (k3, all))), n, simp (e1, e2, e3) e, small)
              | inr (missing, e) ↦ inr (λ all. missing all.1.1.1, simp (e1, e2, e3) e)
            ]
      ]
    ]
  ]

  turns_from-Outcome :
      (g : TrajectoryGraph G) (minimum_turn : G.doubles.Double) (first second third : ℕ)
      (route : List ℕ) (found : ℕ)
      → Outcome g
          (first ∷ second ∷ third ∷ route)
          (found + suc (length route))
          (turns_from G g minimum_turn first second (third ∷ route) found)
  unfolding Outcome turns_from
  turns_from-Outcome g minimum_turn first second third [] found =
      one_turn g minimum_turn first second third [] found (found + 1)
        (λ one small k2 k3. inl (tt, found + one, refl, omega (arith, small)))
  turns_from-Outcome g minimum_turn first second third (fourth ∷ route) found =
      one_turn g minimum_turn first second third (fourth ∷ route) found
        (found + suc (suc (length route)))
        (λ one small k2 k3.
          elim (turns_from-Outcome g minimum_turn second third fourth route (found + one)) [
            | inl (all, n, e, less) ↦ inl (all.1.1, n, e, omega (arith, less, small))
            | inr (missing, e) ↦ inr (λ all. missing (k2, (k3, all)), e)
          ])

  -- On a route of three points or more, `turn_transitions` counts at most one turn for each inner
  -- point if each stop is a point of the graph, and throws the exception for an unknown point
  -- otherwise.
  pub turn_transitions-Outcome :
      (g : TrajectoryGraph G) (minimum_turn : G.doubles.Double) (route : List ℕ)
      → 3 ≤ length route
      → (IsRoute g route
          × (n : ℕ) × (turn_transitions G g route minimum_turn ≡ succeed n)
          × (n + 2 ≤ length route))
        ⊎ ((¬ IsRoute g route) × (turn_transitions G g route minimum_turn ≡ throw unknown_route))
  unfolding turn_transitions Outcome
  turn_transitions-Outcome g minimum_turn [] long = absurd (omega (arith, long))
  turn_transitions-Outcome g minimum_turn (first ∷ []) long = absurd (omega (arith, long))
  turn_transitions-Outcome g minimum_turn (first ∷ second ∷ []) long = absurd (omega (arith, long))
  turn_transitions-Outcome g minimum_turn (first ∷ second ∷ third ∷ route) long =
      elim (turns_from-Outcome g minimum_turn first second third route 0) [
        | inl (all, n, e, less) ↦ inl (all, n, e, omega (arith, less))
        | inr missing ↦ inr missing
      ]

  pub turn_transitions-succeeds :
      (g : TrajectoryGraph G) (minimum_turn : G.doubles.Double) (route : List ℕ)
      → IsRoute g route
      → (n : ℕ) × (turn_transitions G g route minimum_turn ≡ succeed n)
  unfolding turn_transitions turns_from
  turn_transitions-succeeds g minimum_turn [] all = (0, refl)
  turn_transitions-succeeds g minimum_turn (first ∷ []) all = (0, refl)
  turn_transitions-succeeds g minimum_turn (first ∷ second ∷ []) all = (0, refl)
  turn_transitions-succeeds g minimum_turn (first ∷ second ∷ third ∷ route) all =
      elim (turn_transitions-Outcome g minimum_turn (first ∷ second ∷ third ∷ route)
        (omega arith)) [ inl (_, n, e, _) ↦ (n, e) | inr (missing, e) ↦ absurd (missing all) ]
