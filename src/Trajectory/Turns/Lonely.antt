-- ===== src/Trajectory/Turns/Lonely.antt =====
-- `disconnected_nodes` returns the points without an edge.
use accelsim_lite.Trajectory.Valid.{IsValid}
use accelsim_lite.Prelude.{
  ℕ, ◌≡◌, refl, sym, ap, ◌∙◌, ◌↔◌, inl, inr, true, false, ◌&&◌, List, [], ◌∷◌, arith, ◌==◌, ==_iff,
  Bool-cases, contains, is_empty,
}
use accelsim_lite.Trajectory.{Geometry, TrajectoryGraph, neighbors}
use accelsim_lite.Trajectory.Turns.{disconnected_nodes, lonely}
use accelsim_lite.Trajectory.Valid.{joined}
use accelsim_lite.Prelude.Maps.{keys}
use accelsim_lite.Prelude.Sorting.{contains-sort_values, IsSorted, sort_values-IsSorted}

module _ (G : Geometry) where
  contains-lonely :
      (g : TrajectoryGraph G) (ids : List ℕ) (a : ℕ)
      → contains (lonely G g ids) a ≡ (contains ids a && is_empty (neighbors G g a))
  unfolding lonely
  contains-lonely g [] a = refl
  contains-lonely g (id ∷ ids) a =
      let k = contains-lonely g ids a in
      let same_test : (id == a) ≡ true → is_empty (neighbors G g id) ≡ is_empty (neighbors G g a) =
        λ q. ap (λ n. is_empty (neighbors G g n)) ((==_iff id a).0 q) in
      elim (Bool-cases (is_empty (neighbors G g id))) [
        | inl e ↦ simp e (ground (arith, k, same_test, e))
        | inr e ↦ simp e (ground (arith, k, same_test, e))
      ]

  empty_iff : (xs : List ℕ) → (is_empty xs ≡ true) ↔ ((b : ℕ) → contains xs b ≡ false)
  empty_iff [] = (λ h b. refl, λ h. refl)
  empty_iff (x ∷ xs) =
      (λ h. absurd (ground (arith, h)), λ h. absurd (let k = h x in ground (arith, k)))

  -- On a valid graph `disconnected_nodes` has exactly the points that no edge joins to any point,
  -- in ascending order.
  pub disconnected_nodes-IsSorted :
      (g : TrajectoryGraph G)
      → IsValid G g
      → IsSorted (disconnected_nodes G g)
        × ((a : ℕ)
            → (contains (disconnected_nodes G g) a ≡ true)
              ↔ ((contains (keys g.points) a ≡ true) × ((b : ℕ) → joined G g.edges a b ≡ false)))
  unfolding disconnected_nodes
  disconnected_nodes-IsSorted g v = (
    sort_values-IsSorted (lonely G g (keys g.points)),
    λ a.
        let found =
          contains-sort_values (lonely G g (keys g.points)) a
          ∙ contains-lonely g (keys g.points) a in
        let alone = empty_iff (neighbors G g a) in
        (
          λ h. (
            ground (arith, found, h),
            λ b. sym (v.adjacent a b) ∙ alone.0 (ground (arith, found, h)) b,
          ),
          λ (k, none_joined).
              let e = alone.1 (λ b. v.adjacent a b ∙ none_joined b) in ground (arith, found, k, e),
        ),
  )
