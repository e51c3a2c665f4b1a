-- ===== src/Input/Enter.antt =====
-- A newline wakes the first thread that waits for a line.
use p.Base.{
  ℕ, ◌+◌, ◌^◌, ◌%◌, ◌≡◌, refl, ap, ◌∙◌, ◌≢◌, Bool, Option, some, List, [], ◌∷◌, ◌++◌, ◌==◌,
  if◌then◌else◌, first, ne→==-false,
}
use p.LinkedList.{Ptr, null}
use p.Kernel.{Kernel, blocked_queue}
use p.Kernel.Queues.{Queues, wake-Queues}
use p.Sched.{find_thread, wake_one}
use p.Sched.Search.{find_thread-first}
use p.Sched.Wake.{waked, asleep, awake}
use p.Sched.Search.{waked-split, waked-real}
use p.Keyboard.{enqueue}
use p.Input.{Terminal, is_reader, keyboard_handler, handle_enter, keep}

-- The threads that wait for a line, of which a newline wakes the first.
abbrev pub readers : Kernel → List Ptr → List Ptr
readers k bs = waked (λ n. is_reader (k.tcb n)) bs

-- What has changed when a newline has been typed and thread `x` reads it.
pub record Delivered (t t' : Terminal) (x : Ptr) (bs rs : List Ptr) : Type 0 where
  pub queues : Queues t'.kernel.store bs (rs ++ (x ∷ []))
  pub threads : t'.kernel.tcb ≡ (λ q. if q == x then awake (t.kernel.tcb x) else t.kernel.tcb q)
  pub current : t'.kernel.current ≡ t.kernel.current
  pub ring : t'.ring ≡ enqueue t.ring 10
  pub total_num : t'.total_num ≡ (t.total_num + 1) % 2 ^ 32

delivered :
    (decode : ℕ → Option ℕ) (reading : ℕ → ℕ) (scancode : ℕ) (t : Terminal) (x : Ptr)
    → decode scancode ≡ some 10
    → find_thread is_reader blocked_queue t.kernel ≡ x
    → x ≢ null
    → keyboard_handler decode reading scancode t
      ≡ keep reading 10 (record t { kernel = wake_one x t.kernel })
unfolding keyboard_handler handle_enter
delivered decode reading scancode t x typed at real =
    rw (keyboard_handler, typed, handle_enter, at, ne→==-false x null real) refl

-- When the scan code decodes to a newline, the two queues are in order and x is the first
-- thread of the blocked queue that waits for a line: the handler moves x to the end of the
-- runnable queue, makes it runnable, changes no other thread and not the running one, and adds
-- the newline to the ring and one to total_num modulo 2 ^ 32.
pub keyboard_handler-Delivered :
    (decode : ℕ → Option ℕ) (reading : ℕ → ℕ) (scancode : ℕ) (t : Terminal) (bs rs : List Ptr)
    (x : Ptr)
    → decode scancode ≡ some 10
    → Queues t.kernel.store bs rs
    → readers t.kernel bs ≡ x ∷ []
    → Delivered t
        (keyboard_handler decode reading scancode t)
        x
        (asleep (λ n. is_reader (t.kernel.tcb n)) bs)
        rs
keyboard_handler-Delivered decode reading scancode t bs rs x typed q one =
    let test : Ptr → Bool = λ n. is_reader (t.kernel.tcb n) in
    let (ys, zs, a, b) = waked-split test bs x [] one in
    let real = waked-real t.kernel blocked_queue test bs x [] q.blocked one in
    let at = find_thread-first is_reader t.kernel blocked_queue bs q.blocked in
    let woken = wake-Queues t.kernel.store ys x zs rs (rw a at q) in
    rw (delivered decode reading scancode t x typed (at ∙ ap (first null) one) real) (record {
      queues = rw b woken.0;
      threads = refl;
      current = refl;
      ring = refl;
      total_num = refl;
    })
