-- ===== src/Pipeline/Program.antt =====
-- The run writes the stage and the cycle stamps of an instruction, and leaves the rest as it is.
use accelsim_lite.Prelude.{
  ℕ, zero, suc, ◌≡◌, refl, sym, ap, subst, ◌∙◌, List, [], ◌∷◌, length, get_or, modify,
  length-modify,
}
use accelsim_lite.Config.{SimulatorConfig}
use accelsim_lite.Pipeline.{State, at, retire_one, complete_one, complete_all, after_tick}
use accelsim_lite.Instruction.{Instruction, blank, Stage}
use accelsim_lite.Pipeline.Moves.{
  Move, retires, advances, wakes, postpones, issues_memory, issues_compute, stalls, dispatches,
  decodes, fetches, ticks, Moves, no_move, and_then, requeues,
}
use accelsim_lite.Pipeline.Front.{
  begin_execution, postpone, dispatch_one, decode_one, fetch_one, end_cycle, issue, wake_up,
  requeue,
}

-- The part of an instruction that the workload fixes.
pub record SameOperation (x y : Instruction) : Type 0 where
  pub same_id : y.id ≡ x.id
  pub same_type : y.type ≡ x.type
  pub same_latency : y.execute_latency ≡ x.execute_latency
  pub same_bytes : y.memory_bytes ≡ x.memory_bytes
  pub same_deps : y.deps ≡ x.deps

pub record SameProgram (s t : State) : Type 0 where
  pub same_length : length t.instructions ≡ length s.instructions
  pub same_at : (i : ℕ) → SameOperation (at s i) (at t i)

SameOperation-refl : (x : Instruction) → SameOperation x x
SameOperation-refl x = record {
  same_id = refl;
  same_type = refl;
  same_latency = refl;
  same_bytes = refl;
  same_deps = refl;
}

restamp :
    (x : Instruction) (stage : Stage) (enqueue issue complete : ℕ)
    → SameOperation x (record x {
      stage = stage;
      enqueue_cycle = enqueue;
      issue_cycle = issue;
      complete_cycle = complete;
    })
restamp x stage enqueue issue complete = record {
  same_id = refl;
  same_type = refl;
  same_latency = refl;
  same_bytes = refl;
  same_deps = refl;
}

pub SameProgram-trans : {s t u : State} → SameProgram s t → SameProgram t u → SameProgram s u
SameProgram-trans {s} {t} {u} h k = record {
  same_length = k.same_length ∙ h.same_length;
  same_at = λ i.
      let a = h.same_at i in
      let b = k.same_at i in
      record {
        same_id = b.same_id ∙ a.same_id;
        same_type = b.same_type ∙ a.same_type;
        same_latency = b.same_latency ∙ a.same_latency;
        same_bytes = b.same_bytes ∙ a.same_bytes;
        same_deps = b.same_deps ∙ a.same_deps;
      };
}

-- An update of a list of instructions that keeps the fixed part of each.
modify-SameOperation :
    (xs : List Instruction) (idx i : ℕ) (f : Instruction → Instruction)
    → ((x : Instruction) → SameOperation x (f x))
    → SameOperation (get_or xs i blank) (get_or (modify xs idx f) i blank)
modify-SameOperation [] idx i f h = SameOperation-refl blank
modify-SameOperation (x ∷ xs) zero zero f h = h x
modify-SameOperation (x ∷ xs) zero (suc i) f h = SameOperation-refl _
modify-SameOperation (x ∷ xs) (suc idx) zero f h = SameOperation-refl _
modify-SameOperation (x ∷ xs) (suc idx) (suc i) f h = modify-SameOperation xs idx i f h

SameProgram-of :
    (s t : State) (idx : ℕ) (f : Instruction → Instruction)
    → t.instructions ≡ modify s.instructions idx f
    → ((x : Instruction) → SameOperation x (f x))
    → SameProgram s t
SameProgram-of s t idx f e h = record {
  same_length = ap length e ∙ length-modify s.instructions idx f;
  same_at = λ i.
      subst (λ xs. SameOperation (at s i) (get_or xs i blank)) (sym e)
        (modify-SameOperation s.instructions idx i f h);
}

unchanged : (s t : State) → t.instructions ≡ s.instructions → SameProgram s t
unchanged s t e = record {
  same_length = ap length e;
  same_at =
      λ i. subst (λ xs. SameOperation (at s i) (get_or xs i blank)) (sym e) (SameOperation-refl _);
}

complete_all-SameProgram : (ended : List ℕ) (s : State) → SameProgram s (complete_all ended s)
unfolding complete_all complete_one
complete_all-SameProgram [] s = unchanged s s refl
complete_all-SameProgram (idx ∷ ended) s =
    SameProgram-trans (SameProgram-of s (complete_one idx s) idx _ refl (λ x. restamp x _ _ _ _))
      (complete_all-SameProgram ended (complete_one idx s))

pub Move-SameProgram : {config : SimulatorConfig} {s t : State} → Move config s t → SameProgram s t
unfolding retire_one after_tick wake_up requeue begin_execution postpone dispatch_one decode_one
    fetch_one end_cycle
Move-SameProgram (retires s idx rest e) = SameProgram-of _ _ idx _ refl (λ x. restamp x _ _ _ _)
Move-SameProgram (advances s u e) =
    SameProgram-trans (unchanged s _ refl) (complete_all-SameProgram u.finished _)
Move-SameProgram (wakes s idx rest e sat room) =
    SameProgram-of _ _ idx _ refl (λ x. restamp x _ _ _ _)
Move-SameProgram (requeues s idx rest stats e same) = unchanged _ _ refl
Move-SameProgram (postpones s idx rest stats e same) = unchanged _ _ refl
Move-SameProgram (issues_memory s idx rest e m free) =
    SameProgram-of _ _ idx _ refl (λ x. restamp x _ _ _ _)
Move-SameProgram (issues_compute s idx rest e c free) =
    SameProgram-of _ _ idx _ refl (λ x. restamp x _ _ _ _)
Move-SameProgram (stalls s stats same) = unchanged _ _ refl
Move-SameProgram (dispatches s idx rest e room) =
    SameProgram-of _ _ idx _ refl (λ x. restamp x _ _ _ _)
Move-SameProgram (decodes s idx rest e) = SameProgram-of _ _ idx _ refl (λ x. restamp x _ _ _ _)
Move-SameProgram (fetches s lt) = SameProgram-of _ _ s.next_to_fetch _ refl (λ x. restamp x _ _ _ _)
Move-SameProgram (ticks s) = unchanged _ _ refl

pub Moves-SameProgram :
    {config : SimulatorConfig} {s t : State} → Moves config s t → SameProgram s t
Moves-SameProgram (no_move s) = unchanged s s refl
Moves-SameProgram (and_then m ms) = SameProgram-trans (Move-SameProgram m) (Moves-SameProgram ms)

pub SameProgram-refl : (s : State) → SameProgram s s
SameProgram-refl s = unchanged s s refl
