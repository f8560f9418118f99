-- ===== src/Trajectory/Reach.antt =====
-- Points that a trajectory graph connects, and what its number of components is.
pub mod Searching
pub mod Counting
use accelsim_lite.Prelude.{ℕ, ◌≡◌, sym, ◌∙◌, true, List, [], ◌∷◌, contains, length}
use accelsim_lite.Trajectory.{Geometry, Edge, TrajectoryGraph}
use accelsim_lite.Trajectory.Valid.{joined, joined_comm}
use accelsim_lite.Prelude.Maps.{keys}

module _ (G : Geometry) where
  pub data Connected (edges : List (Edge G)) : ℕ → ℕ → Type 0 where
    no_edge : (a : ℕ) → Connected edges a a
    edge_then : {a b c : ℕ} → joined G edges a b ≡ true → Connected edges b c → Connected edges a c

  pub Connected-trans :
      {edges : List (Edge G)} {a b c : ℕ}
      → Connected edges a b
      → Connected edges b c
      → Connected edges a c
  Connected-trans (no_edge a) q = q
  Connected-trans (edge_then j p) q = edge_then j (Connected-trans p q)

  pub Connected-sym : {edges : List (Edge G)} {a b : ℕ} → Connected edges a b → Connected edges b a
  Connected-sym (no_edge a) = no_edge a
  Connected-sym {edges} (edge_then {a} {b} j p) =
      Connected-trans (Connected-sym p) (edge_then (sym (joined_comm G edges a b) ∙ j) (no_edge a))

  -- No two points of the list are connected.
  abbrev pub Apart : List (Edge G) → List ℕ → Type 0
  Apart edges [] = Unit {0}
  Apart edges (r ∷ rs) = ((q : ℕ) → contains rs q ≡ true → ¬ Connected edges r q) × Apart edges rs

  -- The points fall into `n` components, each with one representative.
  pub record HasComponents (g : TrajectoryGraph G) (n : ℕ) : Type 0 where
    pub representatives : List ℕ
    pub as_many : length representatives ≡ n
    pub are_points : (r : ℕ) → contains representatives r ≡ true → contains (keys g.points) r ≡ true
    pub apart : Apart g.edges representatives
    pub represented :
        (a : ℕ)
        → contains (keys g.points) a ≡ true
        → (r : ℕ) × (contains representatives r ≡ true) × Connected g.edges r a

  -- An edge does not leave the set.
  abbrev pub IsClosed : TrajectoryGraph G → List ℕ → Type 0
  IsClosed g xs =
      (a b : ℕ) → contains xs a ≡ true → joined G g.edges a b ≡ true → contains xs b ≡ true

  pub IsClosed-Connected :
      (g : TrajectoryGraph G) (xs : List ℕ) {a b : ℕ}
      → IsClosed g xs
      → contains xs a ≡ true
      → Connected g.edges a b
      → contains xs b ≡ true
  IsClosed-Connected g xs closed h (no_edge a) = h
  IsClosed-Connected g xs closed h (edge_then {a} {b} j p) =
      IsClosed-Connected g xs closed (closed a b h j) p
