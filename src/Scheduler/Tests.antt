-- ===== src/Scheduler/Tests.antt =====
-- An instruction that waits for two others.
use accelsim_lite.Prelude.{◌≡◌, refl, true, false, [], ◌∷◌}
use accelsim_lite.Scheduler.{deps_satisfied, all_retired}
use accelsim_lite.Instruction.{Instruction, blank}

abbrev waiting : Instruction
waiting = record blank { id = 3; deps = 1 ∷ 2 ∷ [] }

both_retired : deps_satisfied waiting (2 ∷ 1 ∷ []) ≡ true
unfolding deps_satisfied all_retired
both_retired = refl

one_retired : deps_satisfied waiting (2 ∷ []) ≡ false
unfolding deps_satisfied all_retired
one_retired = refl
