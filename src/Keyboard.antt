-- ===== src/Keyboard.antt =====
-- kern/hardware/keyboard.c: the ring of typed characters.
pub mod Queue
use p.Base.{ℕ, ◌+◌, ◌-◌, ◌%◌, ◌<◌, ◌^◌, Bool, if◌then◌else◌, ◌==◌, ltb, update}

-- BUF_LEN
abbrev pub buf_len : ℕ
buf_len = 512

-- `s_queue`, by index, and the two indices.
pub record Ring : Type 0 where
  pub s_queue : ℕ → ℕ
  pub start : ℕ
  pub tail : ℕ

-- `calloc` gives a buffer of zeros. That it fails, for which the code panics, is left out.
unfoldable pub setup_keyboard : Ring
setup_keyboard = record { s_queue = λ i. 0; start = 0; tail = 0 }

unfoldable pub queue_empty : Ring → Bool
queue_empty r = r.start == r.tail

unfoldable pub enqueue : Ring → ℕ → Ring
enqueue r s =
    let tail' = (r.tail + 1) % buf_len in
    record {
      s_queue = update r.s_queue r.tail s;
      start = if r.start == tail' then (r.start + 1) % buf_len else r.start;
      tail = tail';
    }

unfoldable pub dequeue : Ring → ℕ × Ring
dequeue r = (r.s_queue r.start, record r { start = (r.start + 1) % buf_len })

-- -1 as a 32-bit pattern.
abbrev pub minus_one : ℕ
minus_one = 2 ^ 32 - 1

-- A byte read as a `char` and widened to an `int`, as a 32-bit pattern.
unfoldable pub char_to_int : ℕ → ℕ
char_to_int b = if ltb b 128 then b else b + 2 ^ 32 - 256

unfoldable pub readchar : Ring → ℕ × Ring
unfolding queue_empty dequeue char_to_int
readchar r =
    if queue_empty r then (minus_one, r) else let (c, r') = dequeue r in (char_to_int c, r')
