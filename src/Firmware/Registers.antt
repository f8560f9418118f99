-- ===== src/Firmware/Registers.antt =====
-- firmware_style_validation/hardware_interface_mock.h.
mod Tests
use accelsim_lite.Prelude.{
  ℕ, ◌+◌, ◌≡◌, refl, List, [], ◌∷◌, ◌++◌, arith, ◌==◌, if◌then◌else◌, length, length-append,
}

pub record RegisterWrite : Type 0 where
  pub address : ℕ
  pub value : ℕ

unfoldable pub write_register : ℕ → ℕ → List RegisterWrite → List RegisterWrite
write_register address value writes = writes ++ record { address = address; value = value } ∷ []

-- The loop from the latest write back, over the writes in reverse.
unfoldable pub latest : List RegisterWrite → ℕ → ℕ
latest [] address = 0
latest (write ∷ writes) address =
    if write.address == address then write.value else latest writes address

abbrev reversed : List RegisterWrite → List RegisterWrite
reversed [] = []
reversed (write ∷ writes) = reversed writes ++ write ∷ []

unfoldable pub read_register : List RegisterWrite → ℕ → ℕ
unfolding latest
read_register writes address = latest (reversed writes) address

unfoldable pub write_count : List RegisterWrite → ℕ
write_count writes = length writes

reversed-append :
    (writes : List RegisterWrite) (write : RegisterWrite)
    → reversed (writes ++ write ∷ []) ≡ write ∷ reversed writes
reversed-append [] write = refl
reversed-append (w ∷ writes) write = ground (arith, reversed-append writes write)

-- A register reads as the value written to it last, a write leaves every other register as it is,
-- and each write counts once.
pub read_register-write_register :
    (writes : List RegisterWrite) (address value other : ℕ)
    → (read_register (write_register address value writes) other
        ≡ (if address == other then value else read_register writes other))
      × (write_count (write_register address value writes) ≡ write_count writes + 1)
unfolding read_register write_register write_count latest
read_register-write_register writes address value other =
    let write : RegisterWrite = record { address = address; value = value } in
    (ground (arith, reversed-append writes write), omega (arith, length-append writes (write ∷ [])))
