-- ===== src/Prelude/Maps.antt =====
-- A map with numbers for keys, as a list of pairs; a new key is put at the end.
use Prim.Native.Nat.{ℕ}
use mathlib.Core.Path.{◌≡◌, refl}
use mathlib.Core.Option.{Option, none, some}
use mathlib.Core.List.{List, [], ◌∷◌}
use native.Mathlib.Omega.{arith}
use accelsim_lite.Prelude.Tests.{◌==◌, if◌then◌else◌}
use mathlib.Core.Logic.{◌≢◌}
use mathlib.Core.Bool.{true, ◌||◌}
use accelsim_lite.Prelude.Count.{contains}
use accelsim_lite.Prelude.Lists.{length}

module _ {ℓ} {V : Type ℓ} where
  abbrev pub find_key : ℕ → List (ℕ × V) → Option V
  find_key key [] = none
  find_key key ((k, v) ∷ rest) = if k == key then some v else find_key key rest

  -- `operator[]` with a new value for the key, made from the old one or from none.
  abbrev pub update_key : ℕ → (Option V → V) → List (ℕ × V) → List (ℕ × V)
  update_key key change [] = (key, change none) ∷ []
  update_key key change ((k, v) ∷ rest) =
      if k == key then (k, change (some v)) ∷ rest else (k, v) ∷ update_key key change rest

  abbrev pub keys : List (ℕ × V) → List ℕ
  keys [] = []
  keys ((k, v) ∷ rest) = k ∷ keys rest

  pub find_key-update_key :
      (key other : ℕ) (change : Option V → V) (map : List (ℕ × V))
      → find_key other (update_key key change map)
        ≡ (if key == other then some (change (find_key key map)) else find_key other map)
  find_key-update_key key other change [] = refl
  find_key-update_key key other change ((k, v) ∷ rest) =
      ground (arith, find_key-update_key key other change rest)

  pub keys-update_key :
      (key other : ℕ) (change : Option V → V) (map : List (ℕ × V))
      → contains (keys (update_key key change map)) other
        ≡ ((key == other) || contains (keys map) other)
  keys-update_key key other change [] = refl
  keys-update_key key other change ((k, v) ∷ rest) =
      ground (arith, keys-update_key key other change rest)

  pub find_key-keys :
      (key : ℕ) (map : List (ℕ × V)) → find_key key map ≢ none → contains (keys map) key ≡ true
  find_key-keys key [] h = absurd (h refl)
  find_key-keys key ((k, v) ∷ rest) h = ground (arith, find_key-keys key rest)

  pub length-keys : (map : List (ℕ × V)) → length (keys map) ≡ length map
  length-keys [] = refl
  length-keys ((k, v) ∷ rest) = omega (arith, length-keys rest)
