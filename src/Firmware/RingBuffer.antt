-- ===== src/Firmware/RingBuffer.antt =====
-- firmware_style_validation/ring_buffer.h and ring_buffer.cpp.
pub mod Queue
mod Tests
use accelsim_lite.Prelude.{
  ℕ, ◌%◌, Bool, true, false, List, ◌==◌, if◌then◌else◌, set, get_or, add64, sub64,
}
use accelsim_lite.Stats.Bottleneck.{head}

abbrev pub capacity : ℕ
capacity = 8

-- `fw_ring_buffer_t`, with the array as a list.
pub record RingBuffer : Type 0 where
  pub data_ : List ℕ
  pub head : ℕ
  pub tail : ℕ
  pub filled : ℕ

unfoldable pub init : RingBuffer → RingBuffer
init rb = record rb { head = 0; tail = 0; filled = 0 }

unfoldable pub is_full : RingBuffer → Bool
is_full rb = rb.filled == capacity

unfoldable pub nothing_in : RingBuffer → Bool
nothing_in rb = rb.filled == 0

unfoldable pub size : RingBuffer → ℕ
size rb = rb.filled

-- The buffer after the call, and its result.
unfoldable pub push : RingBuffer → ℕ → RingBuffer × Bool
unfolding is_full
push rb value = if is_full rb then (rb, false) else (
  record rb {
    data_ = set rb.data_ rb.tail value;
    tail = add64 rb.tail 1 % capacity;
    filled = add64 rb.filled 1;
  },
  true,
)

-- The buffer and `*out` after the call, and its result.
unfoldable pub pop : RingBuffer → ℕ → (RingBuffer × ℕ) × Bool
unfolding nothing_in
pop rb out = if nothing_in rb then ((rb, out), false) else (
  (
    record rb { head = add64 rb.head 1 % capacity; filled = sub64 rb.filled 1 },
    get_or rb.data_ rb.head 0,
  ),
  true,
)
