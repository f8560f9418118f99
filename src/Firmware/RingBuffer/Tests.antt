-- ===== src/Firmware/RingBuffer/Tests.antt =====
-- A ring buffer that has gone round, and the witnesses of the theorems on it.
use accelsim_lite.Prelude.{◌≡◌, refl, [], ◌∷◌, arith}
use accelsim_lite.Firmware.RingBuffer.{RingBuffer, init}
use accelsim_lite.Firmware.RingBuffer.Queue.{
  contents, IsValid, Refines, ring_buffer-Refines, init-IsValid,
}

-- Three values, of which the last two stand at the start of the array.
abbrev wrapped : RingBuffer
wrapped = record { data_ = 11 ∷ 12 ∷ 3 ∷ 4 ∷ 5 ∷ 6 ∷ 7 ∷ 10 ∷ []; head = 7; tail = 2; filled = 3 }

wrapped-IsValid : IsValid wrapped
wrapped-IsValid = omega arith

contents-wrapped : contents wrapped ≡ 10 ∷ 11 ∷ 12 ∷ []
contents-wrapped = refl

ring_buffer-Refines_example : Refines wrapped 13 0
ring_buffer-Refines_example = ring_buffer-Refines wrapped 13 0 wrapped-IsValid

wrapped_restarts : IsValid (init wrapped) × (contents (init wrapped) ≡ [])
wrapped_restarts = init-IsValid wrapped refl
