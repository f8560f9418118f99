-- ===== src/Firmware/Filter/Exact.antt =====
-- With a factor between 0 and 1 the filter never wraps around.
use native.Mathlib.Nat.{mul-le-mul_left}
use accelsim_lite.Prelude.{
  ℕ, suc, ◌+◌, ◌*◌, ◌≤◌, ◌<◌, ◌≡◌, arith, zero, ◌-◌, refl, sym, ap, ◌∙◌, List, [], ◌∷◌, ◌++◌, All,
}
use accelsim_lite.Firmware.Filter.{
  to_int16, shift_right, q8_8_mul, FixedPointFilter, update, filter_from, run_filter_sequence,
}
use accelsim_lite.Prelude.Ints.{ℤ, pos, negsuc, ◌+ℤ◌, ◌*ℤ◌, negated, ◌-ℤ◌}
use mathlib.Core.List.{append_assoc, append-nil}
use mathlib.Core.Path.{ap₂}

abbrev pub IsInt16 : ℤ → Type 0
IsInt16 (pos n) = n < 32768
IsInt16 (negsuc n) = n < 32768

-- The bounds of a term with the factor k / 256.
abbrev Within : ℕ → ℤ → Type 0
Within k (pos n) = n * 256 ≤ k * 32767
Within k (negsuc n) = suc n ≤ 128 * k

to_int16-IsInt16 : (z : ℤ) → IsInt16 z → to_int16 z ≡ z
unfolding to_int16
to_int16-IsInt16 (pos n) h = ground (arith, h)
to_int16-IsInt16 (negsuc n) h = ground (arith, h)

negated-Within : (k m : ℕ) → m ≤ k * 32768 → Within k (shift_right (negated m))
unfolding shift_right
negated-Within k zero h = omega arith
negated-Within k (suc m) h = omega (arith, h)

below : (n : ℕ) → n < 32768 → n ≤ 32767
below n h = omega (arith, h)

below_suc : (n : ℕ) → n < 32768 → suc n ≤ 32768
below_suc n h = omega (arith, h)

term-Within : (k : ℕ) (z : ℤ) → IsInt16 z → Within k (shift_right (pos k *ℤ z))
unfolding shift_right
term-Within k (pos n) h = omega (arith, mul-le-mul_left k (below n h))
term-Within k (negsuc n) h = negated-Within k (k * suc n) (mul-le-mul_left k (below_suc n h))

Within-IsInt16 : (k : ℕ) (z : ℤ) → k ≤ 256 → Within k z → IsInt16 z
Within-IsInt16 k (pos n) h w = omega (arith, h, w)
Within-IsInt16 k (negsuc n) h w = omega (arith, h, w)

sum-IsInt16 : (k l : ℕ) (u v : ℤ) → k + l ≡ 256 → Within k u → Within l v → IsInt16 (u +ℤ v)
sum-IsInt16 k l (pos m) (pos n) h w x = omega (arith, h, w, x)
sum-IsInt16 k l (pos m) (negsuc n) h w x = ground (arith, h, w, x)
sum-IsInt16 k l (negsuc m) (pos n) h w x = ground (arith, h, w, x)
sum-IsInt16 k l (negsuc m) (negsuc n) h w x = omega (arith, h, w, x)

-- A factor of k / 256, rounded down.
abbrev pub scaled : ℕ → ℤ → ℤ
scaled k z = shift_right (pos k *ℤ z)

-- The recurrence of the filter without any wrap-around: the outputs from a state on.
abbrev pub exact_outputs : ℕ → ℤ → List ℤ → List ℤ
exact_outputs k state [] = []
exact_outputs k state (sample ∷ samples) =
    let next = scaled k sample +ℤ scaled (256 - k) state in next ∷ exact_outputs k next samples

q8_8_mul-scaled : (k : ℕ) (z : ℤ) → k ≤ 256 → IsInt16 z → q8_8_mul (pos k) z ≡ scaled k z
unfolding q8_8_mul
q8_8_mul-scaled k z small h =
    to_int16-IsInt16 (scaled k z) (Within-IsInt16 k (scaled k z) small (term-Within k z h))

inverse_lem : (k : ℕ) → k ≤ 256 → to_int16 (pos 256 -ℤ pos k) ≡ pos (256 - k)
unfolding to_int16
inverse_lem zero small = refl
inverse_lem (suc k) small = ground (arith, small)

next-IsInt16 :
    (k : ℕ) (sample state : ℤ)
    → k ≤ 256
    → IsInt16 sample
    → IsInt16 state
    → IsInt16 (scaled k sample +ℤ scaled (256 - k) state)
next-IsInt16 k sample state small h s =
    sum-IsInt16 k (256 - k) (scaled k sample) (scaled (256 - k) state) (omega (arith, small))
      (term-Within k sample h) (term-Within (256 - k) state s)

abbrev with_state : ℕ → ℤ → FixedPointFilter
with_state k state = record { alpha = pos k; state = state }

update-exact :
    (k : ℕ) (sample state : ℤ)
    → k ≤ 256
    → IsInt16 sample
    → IsInt16 state
    → update sample (record { alpha = pos k; state = state })
      ≡ record { alpha = pos k; state = scaled k sample +ℤ scaled (256 - k) state }
unfolding update
update-exact k sample state small h s =
    let state_term =
      ap (λ (i : ℤ). q8_8_mul i state) (inverse_lem k small)
      ∙ q8_8_mul-scaled (256 - k) state (omega arith) s in
    ap (with_state k) (
      ap₂ (λ (u v : ℤ). to_int16 (u +ℤ v)) (q8_8_mul-scaled k sample small h) state_term
      ∙ to_int16-IsInt16 (scaled k sample +ℤ scaled (256 - k) state)
          (next-IsInt16 k sample state small h s))

filter_from-exact :
    (k : ℕ) (samples : List ℤ) (state : ℤ) (outputs : List ℤ)
    → k ≤ 256
    → All IsInt16 samples
    → IsInt16 state
    → filter_from samples (record { alpha = pos k; state = state }) outputs
      ≡ outputs ++ exact_outputs k state samples
unfolding filter_from
filter_from-exact k [] state outputs small all s = sym (append-nil outputs)
filter_from-exact k (sample ∷ samples) state outputs small (h, all) s =
    let next = scaled k sample +ℤ scaled (256 - k) state in
    ap (λ (f : FixedPointFilter). filter_from samples f (outputs ++ f.state ∷ []))
      (update-exact k sample state small h s)
    ∙ (filter_from-exact k samples next (outputs ++ next ∷ []) small all
          (next-IsInt16 k sample state small h s)
        ∙ append_assoc outputs (next ∷ []) (exact_outputs k next samples))

-- With a factor between 0 and 1 (0 to 256 in Q8.8) and samples of 16 bits, the filter returns the
-- outputs of the recurrence in which nothing wraps around.
pub run_filter_sequence-exact :
    (k : ℕ) (samples : List ℤ)
    → k ≤ 256
    → All IsInt16 samples
    → run_filter_sequence samples (pos k) ≡ exact_outputs k (pos 0) samples
unfolding run_filter_sequence
run_filter_sequence-exact k samples small all =
    filter_from-exact k samples (pos 0) [] small all (omega arith)
