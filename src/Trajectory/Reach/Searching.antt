-- ===== src/Trajectory/Reach/Searching.antt =====
-- The search from one point visits what the point is connected to.
use accelsim_lite.Prelude.{
  ℕ, ◌+◌, ◌≤◌, ◌<◌, ◌≡◌, refl, inl, inr, true, false, not, ◌&&◌, ◌||◌, List, [], ◌∷◌, arith, ◌==◌,
  ==_iff, Bool-cases, indicator, contains, length, ap, ◌∙◌, Bool, ◌++◌, contains-append,
  length-append, zero, suc, sym, subst, ◌⊎◌,
}
use accelsim_lite.Trajectory.Components.{Search, visit_neighbors, search}
use accelsim_lite.Trajectory.{Geometry, TrajectoryGraph, neighbors}
use accelsim_lite.Trajectory.Reach.{Connected, no_edge, edge_then, Connected-trans, IsClosed}
use accelsim_lite.Trajectory.Valid.{IsValid, joined, joined_comm}
use accelsim_lite.Prelude.Maps.{keys}

-- How many of the keys have not been visited.
abbrev pub unseen : List ℕ → List ℕ → ℕ
unseen [] seen = 0
unseen (k ∷ ks) seen = indicator (not (contains seen k)) + unseen ks seen

unseen_le : (ks : List ℕ) (n : ℕ) (seen : List ℕ) → unseen ks (n ∷ seen) ≤ unseen ks seen
unseen_le [] n seen = omega arith
unseen_le (k ∷ ks) n seen = let rest = unseen_le ks n seen in ground (arith, rest)

unseen_lt :
    (ks : List ℕ) (n : ℕ) (seen : List ℕ)
    → contains ks n ≡ true
    → contains seen n ≡ false
    → unseen ks (n ∷ seen) < unseen ks seen
unseen_lt [] n seen h f = ground arith
unseen_lt (k ∷ ks) n seen h f = elim (Bool-cases (k == n)) [
  | inl e ↦
      let no_edge = (==_iff k n).0 e in
      let rest = unseen_le ks n seen in ground (arith, rest, no_edge, f)
  | inr e ↦ let rest = unseen_lt ks n seen (ground (arith, h, e)) f in ground (arith, rest)
]

unseen-length : (ks seen : List ℕ) → unseen ks seen ≤ length ks
unseen-length [] seen = omega arith
unseen-length (k ∷ ks) seen = let rest = unseen-length ks seen in ground (arith, rest)

-- The fuel of the search is enough for a point that has not been visited.
pub enough_fuel :
    (ks : List ℕ) (root : ℕ) (seen : List ℕ)
    → contains ks root ≡ true
    → contains seen root ≡ false
    → 1 + unseen ks (root ∷ seen) ≤ length ks
enough_fuel ks root seen h f = omega (arith, unseen_lt ks root seen h f, unseen-length ks seen)

pub test_at : (n a : ℕ) (f : ℕ → Bool) → (n == a) ≡ true → f n ≡ f a
test_at n a f q = ap f ((==_iff n a).0 q)

pub visit_neighbors-seen :
    (ns : List ℕ) (s : Search) (a : ℕ)
    → contains (visit_neighbors ns s).seen a ≡ (contains ns a || contains s.seen a)
unfolding visit_neighbors
visit_neighbors-seen [] s a = refl
visit_neighbors-seen (n ∷ ns) s a =
    let next : Search = record { seen = n ∷ s.seen; pending = s.pending ++ n ∷ [] } in
    let same_test = test_at n a (contains s.seen) in
    elim (Bool-cases (contains s.seen n)) [
      | inl e ↦ simp e (visit_neighbors-seen ns s a ∙ ground (arith, e, same_test))
      | inr e ↦ simp e (visit_neighbors-seen ns next a ∙ ground arith)
    ]

pub visit_neighbors-pending :
    (ns : List ℕ) (s : Search) (a : ℕ)
    → contains (visit_neighbors ns s).pending a
      ≡ (contains s.pending a || (contains ns a && not (contains s.seen a)))
unfolding visit_neighbors
visit_neighbors-pending [] s a = ground arith
visit_neighbors-pending (n ∷ ns) s a =
    let next : Search = record { seen = n ∷ s.seen; pending = s.pending ++ n ∷ [] } in
    let same_test = test_at n a (contains s.seen) in
    let longer = contains-append s.pending (n ∷ []) a in
    elim (Bool-cases (contains s.seen n)) [
      | inl e ↦ simp e (visit_neighbors-pending ns s a ∙ ground (arith, e, same_test))
      | inr e ↦ simp e (visit_neighbors-pending ns next a ∙ ground (arith, e, same_test, longer))
    ]

visit_neighbors-measure :
    (ks ns : List ℕ) (s : Search)
    → ((a : ℕ) → contains ns a ≡ true → contains ks a ≡ true)
    → length (visit_neighbors ns s).pending + unseen ks (visit_neighbors ns s).seen
      ≤ length s.pending + unseen ks s.seen
unfolding visit_neighbors
visit_neighbors-measure ks [] s h = omega arith
visit_neighbors-measure ks (n ∷ ns) s h =
    let next : Search = record { seen = n ∷ s.seen; pending = s.pending ++ n ∷ [] } in
    let known = λ (a : ℕ) (k : contains ns a ≡ true). h a (ground (arith, k)) in
    elim (Bool-cases (contains s.seen n)) [
      | inl e ↦ simp e (visit_neighbors-measure ks ns s known)
      | inr e ↦ simp e (
          omega (
            arith,
            visit_neighbors-measure ks ns next known,
            unseen_lt ks n s.seen (h n (ground arith)) e,
            length-append s.pending (n ∷ []),
          ))
    ]

module _ (G : Geometry) where
  -- What the search from `root` keeps, with what had been visited before it.
  pub record Searches (g : TrajectoryGraph G) (old : List ℕ) (root : ℕ) (s : Search) : Type 0 where
    pub pending_visited : (a : ℕ) → contains s.pending a ≡ true → contains s.seen a ≡ true
    pub expanded :
        (a b : ℕ)
        → contains s.seen a ≡ true
        → contains s.pending a ≡ false
        → joined G g.edges a b ≡ true
        → contains s.seen b ≡ true
    pub from_root :
        (a : ℕ) → contains s.seen a ≡ true → (contains old a ≡ true) ⊎ Connected G g.edges root a
    pub old_visited : (a : ℕ) → contains old a ≡ true → contains s.seen a ≡ true
    pub root_visited : contains s.seen root ≡ true

  pub start-Searches :
      (g : TrajectoryGraph G) (old : List ℕ) (root : ℕ)
      → IsClosed G g old
      → Searches g old root (record { seen = root ∷ old; pending = root ∷ [] })
  start-Searches g old root closed = record {
    pending_visited = λ a h. ground (arith, h);
    expanded = λ a b h f j. let k = closed a b in ground (arith, h, f, j, k);
    from_root = λ a h. elim (Bool-cases (root == a)) [
      | inl e ↦ inr (subst (λ c. Connected G g.edges root c) ((==_iff root a).0 e) (no_edge root))
      | inr e ↦ inl (ground (arith, e, h))
    ];
    old_visited = λ a h. ground (arith, h);
    root_visited = ground arith;
  }

  -- One turn of the loop.
  turn-Searches :
      (g : TrajectoryGraph G) (old : List ℕ) (root current : ℕ) (rest seen : List ℕ)
      → IsValid G g
      → IsClosed G g old
      → Searches g old root (record { seen = seen; pending = current ∷ rest })
      → Searches g old root
          (visit_neighbors (neighbors G g current) (record { seen = seen; pending = rest }))
  turn-Searches g old root current rest seen valid closed v =
      let s : Search = record { seen = seen; pending = rest } in
      let ns = neighbors G g current in
      let t = visit_neighbors ns s in
      let in_visited = visit_neighbors-seen ns s in
      let in_pending = visit_neighbors-pending ns s in
      let here = v.pending_visited current (ground arith) in
      record {
        pending_visited = λ a h.
            let x = in_visited a in
            let y = in_pending a in let z = v.pending_visited a in ground (arith, x, y, z, h);
        expanded = λ a b h f j.
            let x = in_visited a in
            let y = in_pending a in
            let z = in_visited b in
            elim (Bool-cases (current == a)) [
              | inl e ↦
                  let k : contains ns b ≡ true =
                    valid.adjacent current b
                    ∙ (ap (λ c. joined G g.edges c b) ((==_iff current a).0 e) ∙ j) in
                  ground (arith, z, k)
              | inr e ↦ let k = v.expanded a b in ground (arith, x, y, z, h, f, e, k, j)
            ];
        from_root = λ a h. elim (Bool-cases (contains seen a)) [
          | inl e ↦ v.from_root a e
          | inr e ↦
              let k : contains ns a ≡ true = ground (arith, in_visited a, h, e) in
              let j = sym (valid.adjacent current a) ∙ k in
              elim (v.from_root current here) [
                | inl o ↦ inl (closed current a o j)
                | inr p ↦ inr (Connected-trans G p (edge_then j (no_edge a)))
              ]
        ];
        old_visited =
            λ a h. let x = in_visited a in let y = v.old_visited a h in ground (arith, x, y);
        root_visited = let x = in_visited root in ground (arith, x, v.root_visited);
      }

  -- With fuel for the pending points and those not yet visited, nothing is pending at the end.
  pub search-Searches :
      (g : TrajectoryGraph G) (old : List ℕ) (root fuel : ℕ) (seen pending : List ℕ)
      → IsValid G g
      → IsClosed G g old
      → length pending + unseen (keys g.points) seen ≤ fuel
      → let s : Search = record { seen = seen; pending = pending } in
        Searches g old root s
        → Searches g old root (search G g fuel s) × ((search G g fuel s).pending ≡ [])
  unfolding search
  search-Searches g old root zero seen [] valid closed enough v = (v, refl)
  search-Searches g old root zero seen (p ∷ ps) valid closed enough v =
      absurd (omega (arith, enough))
  search-Searches g old root (suc fuel) seen [] valid closed enough v = (v, refl)
  search-Searches g old root (suc fuel) seen (current ∷ rest) valid closed enough v =
      let ns = neighbors G g current in
      let s : Search = record { seen = seen; pending = rest } in
      let known : (a : ℕ) → contains ns a ≡ true → contains (keys g.points) a ≡ true = λ a k.
        valid.known a current
          (joined_comm G g.edges a current ∙ (sym (valid.adjacent current a) ∙ k)) in
      let next = visit_neighbors ns s in
      search-Searches g old root fuel next.seen next.pending valid closed
        (omega (arith, enough, visit_neighbors-measure (keys g.points) ns s known))
        (turn-Searches g old root current rest seen valid closed v)
