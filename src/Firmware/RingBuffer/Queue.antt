-- ===== src/Firmware/RingBuffer/Queue.antt =====
-- The ring buffer of firmware_style_validation/ring_buffer.cpp as a bounded queue.
use accelsim_lite.Prelude.{
  ℕ, zero, suc, ◌+◌, ◌-◌, ◌%◌, ◌≤◌, ◌<◌, ◌≡◌, refl, ap, ◌∙◌, inl, inr, List, [], ◌∷◌, ◌++◌, arith,
  ◌==◌, if◌then◌else◌, Bool-cases, length, set, length-set, get_or, sym, Bool, true, false, add64,
  sub64, ◌≢◌,
}
use mathlib.Core.Path.{ap₂}
use accelsim_lite.Firmware.RingBuffer.{RingBuffer, is_full, push, init, nothing_in, size, pop}

-- The `n` values from a position on, round the end of the array.
abbrev pub window : List ℕ → ℕ → ℕ → List ℕ
window values from zero = []
window values from (suc n) = get_or values from 0 ∷ window values ((from + 1) % 8) n

abbrev pub contents : RingBuffer → List ℕ
contents rb = window rb.data_ rb.head rb.filled

pub record IsValid (rb : RingBuffer) : Type 0 where
  pub whole : length rb.data_ ≡ 8
  pub head_in : rb.head < 8
  pub within : rb.filled ≤ 8
  pub tail_after : rb.tail ≡ (rb.head + rb.filled) % 8

get_or-set :
    (xs : List ℕ) (i j v d : ℕ)
    → i < length xs
    → get_or (set xs i v) j d ≡ (if i == j then v else get_or xs j d)
get_or-set [] i j v d h = absurd (omega arith)
get_or-set (x ∷ xs) zero zero v d h = refl
get_or-set (x ∷ xs) zero (suc j) v d h = ground arith
get_or-set (x ∷ xs) (suc i) zero v d h = ground arith
get_or-set (x ∷ xs) (suc i) (suc j) v d h = ground (arith, get_or-set xs i j v d (omega arith))

-- A write outside of the window leaves it as it is.
window-set :
    (values : List ℕ) (from n p v distance : ℕ)
    → length values ≡ 8
    → from < 8
    → p ≡ (from + distance) % 8
    → n ≤ distance
    → distance < 8
    → window (set values p v) from n ≡ window values from n
window-set values from zero p v distance whole lt e le room = refl
window-set values from (suc n) p v distance whole lt e le room =
    ap₂ (λ x xs. x ∷ xs) (ground (arith, get_or-set values p from v 0 (omega arith)))
      (window-set values ((from + 1) % 8) n p v (distance - 1) whole (omega arith) (omega arith)
        (omega arith) (omega arith))

window-last :
    (values : List ℕ) (from n : ℕ)
    → from < 8
    → window values from (suc n) ≡ window values from n ++ get_or values ((from + n) % 8) 0 ∷ []
window-last values from zero lt = let e : (from + 0) % 8 ≡ from = omega arith in simp e refl
window-last values from (suc n) lt =
    let e : ((from + 1) % 8 + n) % 8 ≡ (from + suc n) % 8 = omega arith in
    ap (λ xs. get_or values from 0 ∷ xs)
      (window-last values ((from + 1) % 8) n (omega arith)
        ∙ ap (λ k. window values ((from + 1) % 8) n ++ get_or values k 0 ∷ []) e)

push-IsValid : (rb : RingBuffer) (value : ℕ) → IsValid rb → IsValid (push rb value).0
unfolding push is_full
push-IsValid rb value v = elim (Bool-cases (rb.filled == 8)) [
  | inl no_room ↦ simp no_room v
  | inr room ↦ simp room (record {
    whole = length-set rb.data_ rb.tail value ∙ v.whole;
    head_in = v.head_in;
    within = ground (arith, v.within);
    tail_after = ground (arith, v.within, v.head_in, v.tail_after);
  })
]

pop-IsValid : (rb : RingBuffer) (out : ℕ) → IsValid rb → IsValid (pop rb out).0.0
unfolding pop nothing_in
pop-IsValid rb out v = elim (Bool-cases (rb.filled == 0)) [
  | inl drained ↦ simp drained v
  | inr some_left ↦ simp some_left (record {
    whole = v.whole;
    head_in = omega arith;
    within = ground (arith, v.within);
    tail_after = ground (arith, v.within, v.head_in, v.tail_after);
  })
]

length-window : (values : List ℕ) (from n : ℕ) → length (window values from n) ≡ n
length-window values from zero = refl
length-window values from (suc n) = ap suc (length-window values ((from + 1) % 8) n)

-- A queue of at most 8 values.

abbrev pub queue_push : List ℕ → ℕ → List ℕ × Bool
queue_push values value =
    if length values == 8 then (values, false) else (values ++ value ∷ [], true)

abbrev pub queue_pop : List ℕ → ℕ → (List ℕ × ℕ) × Bool
queue_pop [] out = (([], out), false)
queue_pop (value ∷ values) out = ((values, value), true)

-- The operations of the buffer are those of the queue of its contents.
pub record Refines (rb : RingBuffer) (value out : ℕ) : Type 0 where
  pub pushes : (contents (push rb value).0, (push rb value).1) ≡ queue_push (contents rb) value
  pub pops :
      ((contents (pop rb out).0.0, (pop rb out).0.1), (pop rb out).1) ≡ queue_pop (contents rb) out
  pub sizes : size rb ≡ length (contents rb)
  pub stays_valid : IsValid (push rb value).0 × IsValid (pop rb out).0.0

push-queue_push :
    (rb : RingBuffer) (value : ℕ)
    → IsValid rb
    → (contents (push rb value).0, (push rb value).1) ≡ queue_push (contents rb) value
unfolding push is_full
push-queue_push rb value v = elim (Bool-cases (rb.filled == 8)) [
  | inl no_room ↦ simp (length-window rb.data_ rb.head rb.filled) (simp no_room refl)
  | inr room ↦
      let next = set rb.data_ rb.tail value in
      let count_next : add64 rb.filled 1 ≡ suc rb.filled = ground (arith, v.within) in
      let last : window next rb.head (add64 rb.filled 1) ≡ contents rb ++ value ∷ [] =
        ap (window next rb.head) count_next
        ∙ (window-last next rb.head rb.filled v.head_in
            ∙ ap₂ (λ xs x. xs ++ x ∷ [])
                (window-set rb.data_ rb.head rb.filled rb.tail value rb.filled v.whole v.head_in
                  v.tail_after (omega arith) (ground (arith, v.within)))
                (ground (
                  arith,
                  v.tail_after,
                  v.whole,
                  get_or-set rb.data_ rb.tail ((rb.head + rb.filled) % 8) value 0,
                ))) in
      simp (length-window rb.data_ rb.head rb.filled) (simp room (ap (λ xs. (xs, true)) last))
]

count_suc : (n : ℕ) → n ≢ 0 → n ≡ suc (n - 1)
count_suc n h = omega arith

pop-queue_pop :
    (rb : RingBuffer) (out : ℕ)
    → IsValid rb
    → ((contents (pop rb out).0.0, (pop rb out).0.1), (pop rb out).1) ≡ queue_pop (contents rb) out
unfolding pop nothing_in
pop-queue_pop rb out v = elim (Bool-cases (rb.filled == 0)) [
  | inl drained ↦
      let zero_filled : rb.filled ≡ 0 = ground arith in
      let none_in : contents rb ≡ [] = ap (window rb.data_ rb.head) zero_filled in
      simp drained (simp none_in refl)
  | inr some_left ↦
      let rest = window rb.data_ ((rb.head + 1) % 8) (rb.filled - 1) in
      let first : contents rb ≡ get_or rb.data_ rb.head 0 ∷ rest =
        ap (window rb.data_ rb.head) (count_suc rb.filled (ground arith)) in
      let next : window rb.data_ (add64 rb.head 1 % 8) (sub64 rb.filled 1) ≡ rest =
        ap₂ (window rb.data_) (omega (arith, v.head_in)) (ground (arith, v.within)) in
      simp some_left (
        ap (λ xs. ((xs, get_or rb.data_ rb.head 0), true)) next
        ∙ ap (λ xs. queue_pop xs out) (sym first))
]

-- The ring buffer is a queue of at most 8 values, in the order of their pushes: a push adds at the
-- end or reports that the queue is full, a pop takes from the front or reports that it is empty,
-- and both keep the buffer valid.
pub ring_buffer-Refines : (rb : RingBuffer) (value out : ℕ) → IsValid rb → Refines rb value out
unfolding size
ring_buffer-Refines rb value out v = record {
  pushes = push-queue_push rb value v;
  pops = pop-queue_pop rb out v;
  sizes = sym (length-window rb.data_ rb.head rb.filled);
  stays_valid = (push-IsValid rb value v, pop-IsValid rb out v);
}

-- `fw_ring_buffer_init` makes a valid buffer with nothing in it, whatever its fields hold.
pub init-IsValid :
    (rb : RingBuffer) → length rb.data_ ≡ 8 → IsValid (init rb) × (contents (init rb) ≡ [])
unfolding init
init-IsValid rb whole =
    (record { whole = whole; head_in = omega arith; within = omega arith; tail_after = refl }, refl)
