-- ===== src/Firmware/Registers/Tests.antt =====
-- The witness of the theorem on the register mock.
use accelsim_lite.Prelude.{◌+◌, ◌≡◌, List, [], ◌∷◌, ◌==◌, if◌then◌else◌}
use accelsim_lite.Firmware.Registers.{
  RegisterWrite, write_register, read_register, write_count, read_register-write_register,
}

abbrev log : List RegisterWrite
log = record { address = 4096; value = 1 } ∷ record { address = 4100; value = 7 } ∷ []

read_register-write_register_example :
    (read_register (write_register 4096 9 log) 4100
      ≡ (if 4096 == 4100 then 9 else read_register log 4100))
    × (write_count (write_register 4096 9 log) ≡ write_count log + 1)
read_register-write_register_example = read_register-write_register log 4096 9 4100
