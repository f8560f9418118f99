-- ===== src/Trajectory/Reach/Counting.antt =====
-- `connected_components` counts the components.
use accelsim_lite.Trajectory.Valid.{IsValid}
use accelsim_lite.Prelude.{
  ℕ, ◌≡◌, refl, ap, subst, inl, inr, true, false, ◌||◌, List, [], ◌∷◌, arith, ◌==◌, ==_iff,
  Bool-cases, contains, length,
}
use accelsim_lite.Trajectory.{Geometry, TrajectoryGraph}
use accelsim_lite.Trajectory.Components.{Search, search, count_from, connected_components}
use accelsim_lite.Trajectory.Reach.{
  Connected, Connected-sym, Apart, IsClosed, IsClosed-Connected, HasComponents,
}
use accelsim_lite.Trajectory.Reach.Searching.{
  enough_fuel, Searches, start-Searches, search-Searches, test_at,
}
use accelsim_lite.Prelude.Maps.{keys, length-keys}

module _ (G : Geometry) where
  -- What the loop over the points keeps, with a representative for each component that it counted.
  record Covers (g : TrajectoryGraph G) (seen reps : List ℕ) : Type 0 where
    closed : IsClosed G g seen
    covered :
        (a : ℕ)
        → contains seen a ≡ true
        → (r : ℕ) × (contains reps r ≡ true) × Connected G g.edges r a
    reps_seen : (r : ℕ) → contains reps r ≡ true → contains seen r ≡ true
    reps_points : (r : ℕ) → contains reps r ≡ true → contains (keys g.points) r ≡ true
    separate : Apart G g.edges reps

  -- A new component, from a point that has not been visited.
  found-Covers :
      (g : TrajectoryGraph G) (seen reps : List ℕ) (root : ℕ) (s : Search)
      → Covers g seen reps
      → contains (keys g.points) root ≡ true
      → contains seen root ≡ false
      → Searches G g seen root s
      → s.pending ≡ []
      → Covers g s.seen (root ∷ reps)
  found-Covers g seen reps root s v is_point new w over = record {
    closed = λ a b h j. w.expanded a b h (ap (λ p. contains p a) over) j;
    covered = λ a h. elim (w.from_root a h) [
      | inl o ↦ let (r, k, p) = v.covered a o in (r, ground (arith, k), p)
      | inr p ↦ (root, ground arith, p)
    ];
    reps_seen = λ r h. elim (Bool-cases (root == r)) [
      | inl e ↦ subst (λ n. contains s.seen n ≡ true) ((==_iff root r).0 e) w.root_visited
      | inr e ↦ w.old_visited r (v.reps_seen r (ground (arith, e, h)))
    ];
    reps_points = λ r h. elim (Bool-cases (root == r)) [
      | inl e ↦ subst (λ n. contains (keys g.points) n ≡ true) ((==_iff root r).0 e) is_point
      | inr e ↦ v.reps_points r (ground (arith, e, h))
    ];
    separate = (
      λ q h p.
          let k = IsClosed-Connected G g seen v.closed (v.reps_seen q h) (Connected-sym G p) in
          absurd (ground (arith, k, new)),
      v.separate,
    );
  }

  count_from-Covers :
      (g : TrajectoryGraph G) (ids seen reps : List ℕ)
      → IsValid G g
      → ((a : ℕ) → contains ids a ≡ true → contains (keys g.points) a ≡ true)
      → Covers g seen reps
      → (last : List ℕ) × (all : List ℕ) × (length last ≡ count_from G g ids seen (length reps))
        × ((a : ℕ) → (contains ids a || contains seen a) ≡ true → contains all a ≡ true)
        × Covers g all last
  unfolding count_from
  count_from-Covers g [] seen reps valid known v = (reps, seen, refl, λ a h. h, v)
  count_from-Covers g (id ∷ ids) seen reps valid known v =
      let later = λ (a : ℕ) (k : contains ids a ≡ true). known a (ground (arith, k)) in
      elim (Bool-cases (contains seen id)) [
        | inl e ↦
            let (last, all, n, h, w) = count_from-Covers g ids seen reps valid later v in
            (
              last,
              all,
              simp e n,
              λ a k. h a (let q = test_at id a (contains seen) in ground (arith, e, q, k)),
              w,
            )
        | inr e ↦
            let is_point = known id (ground arith) in
            let s : Search = record { seen = id ∷ seen; pending = id ∷ [] } in
            let t = search G g (length g.points) s in
            let (searched, over) =
              search-Searches G g seen id (length g.points) (id ∷ seen) (id ∷ []) valid v.closed
                (omega
                  (arith, enough_fuel (keys g.points) id seen is_point e, length-keys g.points))
                (start-Searches G g seen id v.closed) in
            let (last, all, n, h, w) =
              count_from-Covers g ids t.seen (id ∷ reps) valid later
                (found-Covers g seen reps id t v is_point e searched over) in
            (
              last,
              all,
              simp e n,
              λ a k. h a (
                  let q = test_at id a (contains t.seen) in
                  let r = searched.root_visited in
                  let o = searched.old_visited a in ground (arith, q, r, o, k)),
              w,
            )
      ]

  -- On a valid graph `connected_components` is the number of components: there is a list of as many
  -- points, no two of which are connected by edges, such that every point of the graph is connected
  -- to one of them. The fuel of the search is enough for that.
  pub connected_components-HasComponents :
      (g : TrajectoryGraph G) → IsValid G g → HasComponents G g (connected_components G g)
  unfolding connected_components
  connected_components-HasComponents g valid =
      let (last, all, n, h, w) =
        count_from-Covers g (keys g.points) [] [] valid (λ a k. k)
          (record {
            closed = λ a b h j. absurd (ground (arith, h));
            covered = λ a h. absurd (ground (arith, h));
            reps_seen = λ r h. h;
            reps_points = λ r h. absurd (ground (arith, h));
            separate = tt;
          }) in
      record {
        representatives = last;
        as_many = n;
        are_points = w.reps_points;
        apart = w.separate;
        represented = λ a k. w.covered a (h a (ground (arith, k)));
      }
