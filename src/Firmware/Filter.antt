-- ===== src/Firmware/Filter.antt =====
-- firmware_style_validation/fixed_point_filter.cpp: Q8.8 numbers as words of 16 bits.
pub mod Exact
mod Tests
use accelsim_lite.Prelude.{ℕ, ◌-◌, ◌/◌, ◌%◌, List, [], ◌∷◌, ◌++◌, ltb, if◌then◌else◌}
use accelsim_lite.Prelude.Ints.{ℤ, pos, negsuc, ◌+ℤ◌, ◌*ℤ◌, ◌-ℤ◌}

-- The signed number of a word of 16 bits.
abbrev signed16 : ℕ → ℤ
signed16 bits = if ltb bits 32768 then pos bits else negsuc (65535 - bits)

-- The conversion to `int16_t`, which wraps around.
unfoldable pub to_int16 : ℤ → ℤ
to_int16 (pos n) = signed16 (n % 65536)
to_int16 (negsuc n) = signed16 (65535 - n % 65536)

-- The shift `>> 8`, which rounds down.
unfoldable pub shift_right : ℤ → ℤ
shift_right (pos n) = pos (n / 256)
shift_right (negsuc n) = negsuc (n / 256)

-- The product of two words of 16 bits fits `int32_t`.
unfoldable pub q8_8_mul : ℤ → ℤ → ℤ
unfolding to_int16 shift_right
q8_8_mul a b = to_int16 (shift_right (a *ℤ b))

pub record FixedPointFilter : Type 0 where
  pub alpha : ℤ
  pub state : ℤ

abbrev pub new_filter : ℤ → FixedPointFilter
new_filter alpha = record { alpha = alpha; state = pos 0 }

unfoldable pub update : ℤ → FixedPointFilter → FixedPointFilter
unfolding to_int16 q8_8_mul
update sample filter =
    let inverse_alpha = to_int16 (pos 256 -ℤ filter.alpha) in
    let input_term = q8_8_mul filter.alpha sample in
    let state_term = q8_8_mul inverse_alpha filter.state in
    record filter { state = to_int16 (input_term +ℤ state_term) }

-- The loop over the samples, with the outputs so far.
unfoldable pub filter_from : List ℤ → FixedPointFilter → List ℤ → List ℤ
unfolding update
filter_from [] filter outputs = outputs
filter_from (sample ∷ samples) filter outputs =
    let next = update sample filter in filter_from samples next (outputs ++ next.state ∷ [])

unfoldable pub run_filter_sequence : List ℤ → ℤ → List ℤ
unfolding filter_from
run_filter_sequence samples alpha = filter_from samples (new_filter alpha) []
