-- ===== src/Examples/Typing.antt =====
-- The keyboard handler and `readline` at concrete states.
use p.Base.{ℕ, ◌≤◌, ◌≡◌, refl, true, [], ◌∷◌, arith, some, update}
use p.Kernel.{readline}
use p.Input.{Terminal, keyboard_handler, read_line}
use p.Input.Enter.{Delivered, keyboard_handler-Delivered}
use p.Input.Bounds.{read_line-Within}
use p.Examples.Threads.{kernel, threads, queues}
use p.Examples.Devices.{full_ring, full_ring-IsRing, at_end, add_one}

-- Thread 20 waits for a line.
abbrev terminal : Terminal
terminal = record {
  ring = full_ring;
  total_num = 3;
  console = at_end;
  kernel = record kernel { tcb = update threads 20 (record (threads 20) { state = readline }) };
}

keyboard_handler-Delivered_example :
    Delivered terminal (keyboard_handler some add_one 10 terminal) 20 (10 ∷ []) (30 ∷ [])
keyboard_handler-Delivered_example =
    keyboard_handler-Delivered some add_one 10 terminal (10 ∷ 20 ∷ []) (30 ∷ []) 20 refl queues refl

read_line-Within_example :
    (n : ℕ) × (buf : ℕ → ℕ) × (t : Terminal) × (read_line 16 (λ i. 0) terminal ≡ some (n, buf, t))
    × (n ≤ 16)
    × ((a : ℕ) → 16 ≤ a → buf a ≡ 0)
    × (t.kernel.interrupts ≡ true)
read_line-Within_example =
    read_line-Within 16 (λ i. 0) terminal full_ring-IsRing (omega arith) (omega arith)
