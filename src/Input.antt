-- ===== src/Input.antt =====
-- The handler of kern/hardware/keyboard.c, and the calls `readline` and `print` of
-- kern/syscall/sys_consoleIO.c.
pub mod Enter
pub mod Bounds
use p.Base.{
  ℕ, zero, suc, ◌+◌, ◌-◌, ◌%◌, ◌^◌, Bool, true, false, not, ◌||◌, ◌&&◌, Option, none, some,
  if◌then◌else◌, ◌==◌, ltb, leb, update,
}
use p.LinkedList.{Ptr, null}
use p.Kernel.{
  Kernel, Tcb, ThreadState, readline, blocked_queue, minus_one, Cmd, pure, ◌>>=◌, ◌>>◌, tcb_mutex,
  print_lock, mutex_lock, mutex_unlock, ok, fault, contended, set_state,
}
use p.Sched.{find_thread, wake_one, schedule}
use p.Keyboard.{Ring, buf_len, enqueue, readchar}
use p.Thread.{change}
use p.Console.{Console, putbyte, putbytes, negative, get_cursor, set_cursor}

-- `total_num` is the 32-bit pattern of an `int`.
pub record Terminal : Type 0 where
  pub ring : Ring
  pub total_num : ℕ
  pub console : Console
  pub kernel : Kernel

abbrev pub is_reader : Tcb → Bool
is_reader t = elim t.state [ readline ↦ true | _ ↦ false ]

-- `putbyte`, whose result nobody reads.
abbrev pub echo : (ℕ → ℕ) → ℕ → Terminal → Terminal
echo reading ch t = record t { console = (putbyte reading ch t.console).1 }

-- The end of the handler: the character is counted, kept and shown.
abbrev pub keep : (ℕ → ℕ) → ℕ → Terminal → Terminal
keep reading ch t =
    echo reading ch (record t { total_num = (t.total_num + 1) % 2 ^ 32; ring = enqueue t.ring ch })

-- The handler for a newline: the first thread that reads a line becomes runnable. With none, the
-- newline is shown and not kept.
unfoldable pub handle_enter : (ℕ → ℕ) → Terminal → Terminal
handle_enter reading t =
    let n = find_thread is_reader blocked_queue t.kernel in
    if n == null
    then echo reading 10 t
    else keep reading 10 (record t { kernel = wake_one n t.kernel })

unfoldable pub handle_backspace : (ℕ → ℕ) → Terminal → Terminal
handle_backspace reading t =
    if t.total_num == 0
    then t
    else keep reading 8 (record t { total_num = (t.total_num + 2 ^ 32 - 2) % 2 ^ 32 })

-- `decode` is `process_scancode` with the tests on its result: `none` when the scan code has no
-- character or is a release. The acknowledgement to the interrupt controller is left out.
unfoldable pub keyboard_handler : (ℕ → Option ℕ) → (ℕ → ℕ) → ℕ → Terminal → Terminal
keyboard_handler decode reading scancode t = elim (decode scancode) [
  | none ↦ t
  | some ch ↦
      if ch == 10
      then handle_enter reading t
      else if ch == 8
      then handle_backspace reading t
      else keep reading ch t
]

-- The state of the loop of `sys_readline`, and how it ends.
pub record Line : Type 0 where
  pub count : ℕ
  pub buf : ℕ → ℕ
  pub ring : Ring

-- `count` behind one character: it is a `char` in its sign-extended form.
abbrev pub count_after : ℕ → ℕ → ℕ
count_after c count = if c == 8 then (if ltb 0 count then count - 1 else 0) else count + 1

-- The loop of `sys_readline`; `none` is a loop that has used up its fuel.
unfoldable pub line_loop : ℕ → ℕ → Line → Option Line
line_loop zero len s = none
line_loop (suc fuel) len s =
    let (c, ring) = readchar s.ring in
    let count = count_after c s.count in
    let stored = update s.buf s.count (c % 2 ^ 8) in
    let last = (count + 2 ^ 32 - 1) % 2 ^ 32 in
    let rest = line_loop fuel len (record { count = count; buf = stored; ring = ring }) in
    if c == minus_one
    then some (record s { ring = ring })
    else if count == len
    then some (record { count = count; buf = update stored last 0; ring = ring })
    else if c == 10
    then some (record { count = count; buf = update stored last 10; ring = ring })
    else rest

abbrev pub set_interrupts : Bool → Terminal → Terminal
set_interrupts on t = record t { kernel = record t.kernel { interrupts = on } }

-- `sys_readline` from where it comes back from `schedule`: the result, the caller's buffer and the
-- state. The ring holds fewer than `buf_len` characters, and each round but the last takes one.
unfoldable pub read_line : ℕ → (ℕ → ℕ) → Terminal → Option (ℕ × (ℕ → ℕ) × Terminal)
read_line len buf t =
    if negative len
    then some (minus_one, buf, set_interrupts false t)
    else elim (line_loop buf_len len (record { count = 0; buf = buf; ring = t.ring })) [
      | none ↦ none
      | some s ↦ some (
        s.count,
        s.buf,
        set_interrupts true
            (record t { ring = s.ring; total_num = (t.total_num + 2 ^ 32 - s.count) % 2 ^ 32 }),
      )
    ]

-- `sys_readline` up to where it comes back: `valid` is the outcome of the tests on the pointer.
unfoldable pub wait_for_line : Bool → ℕ → Cmd Bool
wait_for_line valid len k =
    if not valid || (not (negative len) && ltb 4096 len)
    then pure false k
    else (do
      change (tcb_mutex k.current) (set_state k.current readline)
      schedule minus_one
      pure true)
        k

-- `sys_print`; `none` is a call that waits for a mutex.
unfoldable pub sys_print : (ℕ → ℕ) → Bool → ℕ → (ℕ → ℕ) → Terminal → Option (ℕ × Terminal)
sys_print reading valid len buf t = elim (mutex_lock print_lock t.kernel) [
  | ok u k ↦
      if not valid
      then some (minus_one, record t { kernel = k })
      else elim (mutex_unlock print_lock k) [
        | ok v k' ↦ some (0, record t { console = putbytes reading buf len t.console; kernel = k' })
        | fault ↦ none
        | contended ↦ none
      ]
  | fault ↦ none
  | contended ↦ none
]

-- `sys_get_cursor_pos`, with the outcomes of the tests on its two pointers, and what it writes.
unfoldable pub sys_get_cursor_pos : Bool → Bool → Console → ℕ × Option (ℕ × ℕ)
sys_get_cursor_pos row_valid col_valid c =
    if not row_valid
    then (minus_one, none)
    else if not col_valid
    then (minus_one, none)
    else (0, some (get_cursor c))

unfoldable pub sys_set_cursor_pos : ℕ → ℕ → Console → ℕ × Console
sys_set_cursor_pos row col c = set_cursor row col c
