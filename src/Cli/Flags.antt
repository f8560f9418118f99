-- ===== src/Cli/Flags.antt =====
-- What the flags do to a configuration.
use accelsim_lite.Prelude.{
  ℕ, ◌<◌, ◌≡◌, ◌∷◌, u32_mod, succeed, ◌%◌, refl, List, [], arith, All, ◌++◌, throw, sym, ap, ◌∙◌,
}
use accelsim_lite.Config.{SimulatorConfig}
use accelsim_lite.Cli.{set_flag, apply_flag, parse_optional_flags, missing_value}
use accelsim_lite.Prelude.Text.{Text, codes}
use accelsim_lite.Workload.{to_u32}
use accelsim_lite.Csv.Numbers.{stoull-decimal}
use accelsim_lite.Prelude.Decimal.{decimal}
use mathlib.Core.List.{append-nil}

-- A flag with its number, as it is written on the command line.
pub data Flag : Type 0 where
  compute_units memory_ports dispatch_queue ready_queue : ℕ → Flag

abbrev pub arguments_of : List Flag → List Text
arguments_of [] = []
arguments_of (compute_units n ∷ flags) = codes "--compute-units" ∷ decimal n ∷ arguments_of flags
arguments_of (memory_ports n ∷ flags) = codes "--memory-ports" ∷ decimal n ∷ arguments_of flags
arguments_of (dispatch_queue n ∷ flags) = codes "--dispatch-queue" ∷ decimal n ∷ arguments_of flags
arguments_of (ready_queue n ∷ flags) = codes "--ready-queue" ∷ decimal n ∷ arguments_of flags

abbrev pub number_of : Flag → ℕ
number_of (compute_units n) = n
number_of (memory_ports n) = n
number_of (dispatch_queue n) = n
number_of (ready_queue n) = n

-- The configuration with the fields of the flags; the last flag for a field counts.
abbrev pub configured : SimulatorConfig → List Flag → SimulatorConfig
configured config [] = config
configured config (compute_units n ∷ flags) = configured (record config { compute_units = n }) flags
configured config (memory_ports n ∷ flags) = configured (record config { memory_ports = n }) flags
configured config (dispatch_queue n ∷ flags) =
    configured (record config { dispatch_queue_capacity = n }) flags
configured config (ready_queue n ∷ flags) =
    configured (record config { ready_queue_capacity = n }) flags

apply_flag-decimal :
    (config changed : SimulatorConfig) (key : Text) (n : ℕ)
    → n < u32_mod
    → set_flag config key n ≡ succeed changed
    → apply_flag config key (decimal n) ≡ succeed changed
unfolding apply_flag to_u32
apply_flag-decimal config changed key n small e =
    let read = stoull-decimal n (omega (arith, small)) in
    let same_number : n % u32_mod ≡ n = omega (arith, small) in simp (read, same_number) e

flags_read :
    (config : SimulatorConfig) (flags : List Flag) (rest : List Text)
    → All (λ flag. number_of flag < u32_mod) flags
    → parse_optional_flags config (arguments_of flags ++ rest)
      ≡ parse_optional_flags (configured config flags) rest
unfolding parse_optional_flags set_flag
flags_read config [] rest small = refl
flags_read config (compute_units n ∷ flags) rest (h, hs) =
    let changed = record config { compute_units = n } in
    simp (apply_flag-decimal config changed (codes "--compute-units") n h refl)
      (flags_read changed flags rest hs)
flags_read config (memory_ports n ∷ flags) rest (h, hs) =
    let changed = record config { memory_ports = n } in
    simp (apply_flag-decimal config changed (codes "--memory-ports") n h refl)
      (flags_read changed flags rest hs)
flags_read config (dispatch_queue n ∷ flags) rest (h, hs) =
    let changed = record config { dispatch_queue_capacity = n } in
    simp (apply_flag-decimal config changed (codes "--dispatch-queue") n h refl)
      (flags_read changed flags rest hs)
flags_read config (ready_queue n ∷ flags) rest (h, hs) =
    let changed = record config { ready_queue_capacity = n } in
    simp (apply_flag-decimal config changed (codes "--ready-queue") n h refl)
      (flags_read changed flags rest hs)

-- Flags with numbers below 2 ^ 32 set their fields, the last flag for a field counting, and the
-- arguments behind them are read with the configuration that they leave. Behind them, a flag without
-- a value throws its exception.
pub parse_optional_flags-arguments :
    (config : SimulatorConfig) (flags : List Flag) (rest : List Text)
    → All (λ flag. number_of flag < u32_mod) flags
    → (parse_optional_flags config (arguments_of flags ++ rest)
        ≡ parse_optional_flags (configured config flags) rest)
      × ((key : Text)
          → parse_optional_flags config (arguments_of flags ++ key ∷ [])
            ≡ throw (missing_value key))
unfolding parse_optional_flags
parse_optional_flags-arguments config flags rest small =
    (flags_read config flags rest small, λ key. flags_read config flags (key ∷ []) small)

pub arguments_read :
    (config : SimulatorConfig) (flags : List Flag)
    → All (λ flag. number_of flag < u32_mod) flags
    → parse_optional_flags config (arguments_of flags) ≡ succeed (configured config flags)
unfolding parse_optional_flags
arguments_read config flags small =
    ap (parse_optional_flags config) (sym (append-nil (arguments_of flags)))
    ∙ flags_read config flags [] small
