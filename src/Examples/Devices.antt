-- ===== src/Examples/Devices.antt =====
-- The console and the keyboard at concrete states.
use p.Base.{ℕ, ◌+◌, ◌≡◌, refl, true, arith, inr, if◌then◌else◌, ◌==◌}
use p.Keyboard.{Ring, enqueue, readchar}
use p.Keyboard.Queue.{IsRing, contents, put_newest, take_oldest, enqueue_refines, readchar_refines}
use p.Console.{Console, putbytes}
use p.Console.Bounds.{IsReading, OnScreen, putbytes-OnScreen}

-- A full ring: 511 characters behind index 5, the oldest of which is 65.
abbrev pub full_ring : Ring
full_ring = record { s_queue = λ i. if i == 5 then 65 else 97; start = 5; tail = 4 }

pub full_ring-IsRing : IsRing full_ring
full_ring-IsRing = record { start_in = omega arith; tail_in = omega arith }

enqueue_refines_example : contents (enqueue full_ring 98) ≡ put_newest (contents full_ring) 98
enqueue_refines_example = enqueue_refines full_ring 98 full_ring-IsRing

readchar_refines_example :
    ((readchar full_ring).0, contents (readchar full_ring).1) ≡ take_oldest (contents full_ring)
readchar_refines_example = readchar_refines full_ring full_ring-IsRing

-- The cursor is at the last cell of the screen.
abbrev pub at_end : Console
at_end = record {
  row = 24;
  col = 79;
  color = 7;
  offset = 1999;
  is_visible = true;
  video = λ a. 65;
  crtc_idx = 15;
  crtc = λ i. 0;
}

at_end-OnScreen : OnScreen at_end
at_end-OnScreen = record { row_in = omega arith; col_in = omega arith; shown = refl }

abbrev pub add_one : ℕ → ℕ
add_one r = r + 1

add_one-IsReading : IsReading add_one
add_one-IsReading r = inr refl

abbrev text : ℕ → ℕ
text i = if i == 0 then 66 else 10

putbytes-OnScreen_example : OnScreen (putbytes add_one text 3 at_end)
putbytes-OnScreen_example =
    putbytes-OnScreen add_one add_one-IsReading text 3 at_end at_end-OnScreen
