-- ===== src/Firmware/Filter/Tests.antt =====
-- Three samples through a filter with the factor 1 / 4, and the witness of the theorem on them.
use accelsim_lite.Prelude.{◌≡◌, refl, List, [], ◌∷◌, arith, All}
use accelsim_lite.Firmware.Filter.{
  to_int16, shift_right, q8_8_mul, update, filter_from, run_filter_sequence,
}
use accelsim_lite.Firmware.Filter.Exact.{IsInt16, exact_outputs, run_filter_sequence-exact}
use accelsim_lite.Prelude.Ints.{ℤ, pos, negsuc}

abbrev samples : List ℤ
samples = pos 32767 ∷ negsuc 32767 ∷ pos 256 ∷ []

samples-IsInt16 : All IsInt16 samples
samples-IsInt16 = (omega arith, (omega arith, (omega arith, tt)))

filtered : run_filter_sequence samples (pos 64) ≡ pos 8191 ∷ negsuc 2048 ∷ negsuc 1472 ∷ []
unfolding run_filter_sequence filter_from update q8_8_mul shift_right to_int16
filtered = refl

run_filter_sequence-exact_example :
    run_filter_sequence samples (pos 64) ≡ exact_outputs 64 (pos 0) samples
run_filter_sequence-exact_example =
    run_filter_sequence-exact 64 samples (omega arith) samples-IsInt16

-- A factor of 2 wraps around.
wrapped_around : run_filter_sequence (pos 32767 ∷ []) (pos 512) ≡ negsuc 1 ∷ []
unfolding run_filter_sequence filter_from update q8_8_mul shift_right to_int16
wrapped_around = refl
