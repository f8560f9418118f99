-- ===== src/Pipeline/Order.antt =====
-- Instructions are dispatched in the order of the program, and those that are done are known as
-- retired.
use accelsim_lite.Prelude.{
  ℕ, zero, suc, ◌+◌, ◌≤◌, ◌<◌, ◌≡◌, refl, sym, ◌∙◌, ◌≢◌, List, [], ◌∷◌, ◌++◌, arith, count, ap,
  true, contains, contains-insert, length, modify, get_or-modify, get_or-modify_read,
}
use mathlib.Core.Path.{ap₂}
use accelsim_lite.Config.{SimulatorConfig}
use accelsim_lite.Pipeline.{State, retire_one, after_tick, at, resume}
use accelsim_lite.Pipeline.Moves.{
  Move, retires, advances, wakes, requeues, postpones, issues_memory, issues_compute, stalls,
  dispatches, decodes, fetches, ticks,
}
use accelsim_lite.Pipeline.Front.{
  wake_up, requeue, begin_execution, postpone, dispatch_one, decode_one, fetch_one, end_cycle,
}
use mathlib.Core.List.{append_assoc}
use accelsim_lite.Instruction.{
  fetch, decode, dispatch, ready, execute, done, stage_rank, Instruction, blank,
}
use accelsim_lite.Pipeline.Program.{Move-SameProgram}
use accelsim_lite.Pipeline.Placement.{IsPlaced}
use accelsim_lite.Pipeline.Forward.{complete_all-stage, complete_all-eq}

-- The numbers from `first` on.
abbrev pub range : ℕ → ℕ → List ℕ
range first zero = []
range first (suc n) = first ∷ range (suc first) n

range-concat : (first n : ℕ) → range first n ++ (first + n) ∷ [] ≡ range first (suc n)
range-concat first zero = ground arith
range-concat first (suc n) = ground (arith, range-concat (suc first) n)

-- A number below the first one is not in the range.
pub count-range : (a first n : ℕ) → a < first → count a (range first n) ≡ 0
count-range a first zero h = refl
count-range a first (suc n) h = ground (arith, count-range a (suc first) n)

-- A number in the range is in it.
pub count-range-ne : (a first n : ℕ) → first ≤ a → a < first + n → count a (range first n) ≢ 0
count-range-ne a first zero lo hi = absurd (omega arith)
count-range-ne a first (suc n) lo hi = ground (arith, count-range-ne a (suc first) n)

-- What waits for dispatch is the end of what has been fetched, in its order.
pub record IsOrdered (s : State) : Type 0 where
  pub first : ℕ
  pub waiting : ℕ
  pub in_order : s.decode_q ++ s.fetch_q ≡ range first waiting
  pub reaches : first + waiting ≡ s.next_to_fetch

append_cons : (xs ys : List ℕ) (y : ℕ) → xs ++ y ∷ ys ≡ (xs ++ y ∷ []) ++ ys
append_cons [] ys y = refl
append_cons (x ∷ xs) ys y = simp (append_cons xs ys y)

range-tail :
    (first n idx : ℕ) (rest : List ℕ)
    → idx ∷ rest ≡ range first n
    → (m : ℕ) × (n ≡ suc m) × (rest ≡ range (suc first) m)
range-tail first zero idx rest e = absurd (cc)
range-tail first (suc n) idx rest e = (n, refl, ground arith)

keeps_order :
    (s t : State)
    → t.decode_q ≡ s.decode_q
    → t.fetch_q ≡ s.fetch_q
    → t.next_to_fetch ≡ s.next_to_fetch
    → IsOrdered s
    → IsOrdered t
keeps_order s t d f n v = record {
  first = v.first;
  waiting = v.waiting;
  in_order = ap₂ (λ xs ys. xs ++ ys) d f ∙ v.in_order;
  reaches = v.reaches ∙ sym n;
}

dispatch-IsOrdered :
    (s : State) (idx : ℕ) (rest : List ℕ)
    → s.decode_q ≡ idx ∷ rest
    → IsOrdered s
    → IsOrdered (dispatch_one idx (record s { decode_q = rest }))
unfolding dispatch_one
dispatch-IsOrdered s idx rest e v =
    let (m, n, tail) =
      range-tail v.first v.waiting idx (rest ++ s.fetch_q)
        (ap (λ xs. xs ++ s.fetch_q) (sym e) ∙ v.in_order) in
    record { first = suc v.first; waiting = m; in_order = tail; reaches = omega (arith, v.reaches) }

decode-IsOrdered :
    (s : State) (idx : ℕ) (rest : List ℕ)
    → s.fetch_q ≡ idx ∷ rest
    → IsOrdered s
    → IsOrdered (decode_one idx (record s { fetch_q = rest }))
unfolding decode_one
decode-IsOrdered s idx rest e v = record {
  first = v.first;
  waiting = v.waiting;
  in_order =
      sym (append_cons s.decode_q rest idx) ∙ (ap (λ xs. s.decode_q ++ xs) (sym e) ∙ v.in_order);
  reaches = v.reaches;
}

fetch-IsOrdered : (s : State) → IsOrdered s → IsOrdered (fetch_one s)
unfolding fetch_one
fetch-IsOrdered s v = record {
  first = v.first;
  waiting = suc v.waiting;
  in_order =
      sym (append_assoc s.decode_q s.fetch_q (s.next_to_fetch ∷ []))
      ∙ (ap (λ xs. xs ++ s.next_to_fetch ∷ []) v.in_order
          ∙ (ap (λ n. range v.first v.waiting ++ n ∷ []) (sym v.reaches)
              ∙ range-concat v.first v.waiting));
  reaches = omega (arith, v.reaches);
}

pub Move-IsOrdered :
    {config : SimulatorConfig} (s t : State) → Move config s t → IsOrdered s → IsOrdered t
unfolding retire_one wake_up requeue begin_execution postpone end_cycle after_tick
Move-IsOrdered _ _ (retires s idx rest e) v = keeps_order s _ refl refl refl v
Move-IsOrdered _ _ (advances s t h) v =
    let e = complete_all-eq t.finished (resume s t) in
    keeps_order s _ (ap (λ u. u.decode_q) e) (ap (λ u. u.fetch_q) e) (ap (λ u. u.next_to_fetch) e) v
Move-IsOrdered _ _ (wakes s idx rest e sat room) v = keeps_order s _ refl refl refl v
Move-IsOrdered _ _ (requeues s idx rest stats e same) v = keeps_order s _ refl refl refl v
Move-IsOrdered _ _ (postpones s idx rest stats e same) v = keeps_order s _ refl refl refl v
Move-IsOrdered _ _ (issues_memory s idx rest e m free) v = keeps_order s _ refl refl refl v
Move-IsOrdered _ _ (issues_compute s idx rest e c free) v = keeps_order s _ refl refl refl v
Move-IsOrdered _ _ (stalls s stats same) v = keeps_order s _ refl refl refl v
Move-IsOrdered _ _ (dispatches s idx rest e room) v = dispatch-IsOrdered s idx rest e v
Move-IsOrdered _ _ (decodes s idx rest e) v = decode-IsOrdered s idx rest e v
Move-IsOrdered _ _ (fetches s lt) v = fetch-IsOrdered s v
Move-IsOrdered _ _ (ticks s) v = keeps_order s _ refl refl refl v

-- Each instruction that is done has its identifier among the retired ones.
abbrev pub AreRetired : State → Type 0
AreRetired s =
    (i : ℕ)
    → i < s.next_to_fetch
    → stage_rank (at s i).stage ≡ 6
    → contains s.retired_ids (at s i).id ≡ true

modify-AreRetired :
    (s : State) (idx : ℕ) (f : Instruction → Instruction)
    → s.next_to_fetch ≤ length s.instructions
    → ((x : Instruction) → stage_rank (f x).stage ≢ 6)
    → AreRetired s
    → AreRetired (record s { instructions = modify s.instructions idx f })
modify-AreRetired s idx f h ne v i lt over =
    ground (arith, get_or-modify_read s.instructions idx i f blank (omega arith), ne (at s i), v i)

pub Move-AreRetired :
    {config : SimulatorConfig} (s t : State)
    → Move config s t
    → IsPlaced s
    → AreRetired s
    → AreRetired t
unfolding retire_one wake_up requeue begin_execution postpone end_cycle after_tick dispatch_one
    decode_one fetch_one
Move-AreRetired _ _ (retires s idx rest e) p v = λ i lt d. ground (
  arith,
  get_or-modify_read s.instructions idx i (λ x. record x { stage = done }) blank
      (omega (arith, p.in_range)),
  contains-insert (at s idx).id (at s i).id s.retired_ids,
  v i,
)
Move-AreRetired {config} _ _ (advances s t h) p v = λ i lt d.
    let m : Move config s (after_tick s t) = advances s t h in
    let e = complete_all-eq t.finished (resume s t) in
    ground (
      arith,
      p.in_range,
      ap (λ u. u.next_to_fetch) e,
      ap (λ u. contains u.retired_ids (at s i).id) e,
      ((Move-SameProgram m).same_at i).same_id,
      complete_all-stage t.finished (resume s t) i,
      v i,
    )
Move-AreRetired _ _ (wakes s idx rest e sat room) p v =
    modify-AreRetired s idx (λ x. record x { stage = ready }) p.in_range (λ x. omega arith) v
Move-AreRetired _ _ (requeues s idx rest stats e same) p v = v
Move-AreRetired _ _ (postpones s idx rest stats e same) p v = v
Move-AreRetired _ _ (issues_memory s idx rest e m free) p v =
    modify-AreRetired s idx (λ x. record x { stage = execute; issue_cycle = s.cycle }) p.in_range
      (λ x. omega arith) v
Move-AreRetired _ _ (issues_compute s idx rest e c free) p v =
    modify-AreRetired s idx (λ x. record x { stage = execute; issue_cycle = s.cycle }) p.in_range
      (λ x. omega arith) v
Move-AreRetired _ _ (stalls s stats same) p v = v
Move-AreRetired _ _ (dispatches s idx rest e room) p v =
    modify-AreRetired s idx (λ x. record x { stage = dispatch }) p.in_range (λ x. omega arith) v
Move-AreRetired _ _ (decodes s idx rest e) p v =
    modify-AreRetired s idx (λ x. record x { stage = decode }) p.in_range (λ x. omega arith) v
Move-AreRetired _ _ (fetches s lt) p v = λ i less d. ground (
  arith,
  get_or-modify s.instructions s.next_to_fetch i
      (λ x. record x { stage = fetch; enqueue_cycle = s.cycle }) blank lt,
  v i,
)
Move-AreRetired _ _ (ticks s) p v = v
