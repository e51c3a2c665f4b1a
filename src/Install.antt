-- ===== src/Install.antt =====
-- kern/handler_install.c: the gates of the interrupt table, the timer's period, and the two devices.
pub mod Gates
use p.Base.{ℕ, ◌+◌, ◌*◌, ◌/◌, ◌%◌, ◌^◌, List, [], ◌∷◌, ◌++◌, update}
use p.Keyboard.{Ring, setup_keyboard}

-- What the handlers are for; `Wrapper → ℕ` gives the addresses of their entry points.
pub data Wrapper : Type 0 where
  page_fault timer keyboard : Wrapper
  exec fork gettid wait set_status vanish print readfile sleep deschedule halt : Wrapper
  readline new_pages remove_pages swexn thread_fork get_ticks yield make_runnable : Wrapper
  set_term_color get_cursor_pos set_cursor_pos : Wrapper

-- The entry of the table: SWEXN_CAUSE_PAGEFAULT, TIMER_IDT_ENTRY and the other constants.
abbrev pub idt_entry : Wrapper → ℕ
idt_entry page_fault = 0x0E
idt_entry timer = 0x20
idt_entry keyboard = 0x21
idt_entry exec = 0x42
idt_entry fork = 0x41
idt_entry gettid = 0x48
idt_entry wait = 0x44
idt_entry set_status = 0x59
idt_entry vanish = 0x60
idt_entry print = 0x4E
idt_entry readfile = 0x62
idt_entry sleep = 0x4B
idt_entry deschedule = 0x46
idt_entry halt = 0x55
idt_entry readline = 0x4D
idt_entry new_pages = 0x49
idt_entry remove_pages = 0x4A
idt_entry swexn = 0x74
idt_entry thread_fork = 0x52
idt_entry get_ticks = 0x53
idt_entry yield = 0x45
idt_entry make_runnable = 0x47
idt_entry set_term_color = 0x4F
idt_entry get_cursor_pos = 0x51
idt_entry set_cursor_pos = 0x50

-- SEGSEL_KERNEL_CS
abbrev pub kernel_cs : ℕ
kernel_cs = 0x10

-- The table as words, from `idt_base()` on.
abbrev pub Idt : Type 0
Idt = ℕ → ℕ

-- Two words for each entry. What the code joins by `|` has no bit in common, so that it is a sum.
abbrev install : ℕ → ℕ → ℕ → Idt → Idt
install reserved entry offset idt =
    let offset3116 = offset / 2 ^ 16 * 2 ^ 16 in
    let offset150 = offset % 2 ^ 16 in
    update (update idt (entry * 2) (kernel_cs * 2 ^ 16 + offset150)) (entry * 2 + 1)
      (offset3116 + reserved)

unfoldable pub install_handler : ℕ → ℕ → Idt → Idt
install_handler entry offset idt = install 0xef00 entry offset idt

unfoldable pub install_interrupt : ℕ → ℕ → Idt → Idt
install_interrupt entry offset idt = install 0x8e00 entry offset idt

-- The system calls, in the order in which they are installed.
abbrev pub system_calls : List Wrapper
system_calls =
    exec ∷ fork ∷ gettid ∷ wait ∷ set_status ∷ vanish ∷ print ∷ readfile ∷ sleep ∷ deschedule ∷ halt
    ∷ readline ∷ new_pages ∷ remove_pages ∷ swexn ∷ thread_fork ∷ get_ticks ∷ yield ∷ make_runnable
    ∷ set_term_color ∷ get_cursor_pos ∷ set_cursor_pos ∷ []

abbrev pub install_each : (Wrapper → ℕ) → List Wrapper → Idt → Idt
install_each address [] idt = idt
install_each address (h ∷ hs) idt =
    install_each address hs (install_handler (idt_entry h) (address h) idt)

-- What the call changes: the table, the bytes written to ports in their order, the callback of the
-- timer, and the ring of the keyboard.
pub record Machine : Type 0 where
  pub idt : Idt
  pub ports : List (ℕ × ℕ)
  pub callback : ℕ
  pub ring : Ring

-- TIMER_RATE / FREQ
abbrev pub period : ℕ
period = 1193182 / 100

unfoldable pub handler_install : (Wrapper → ℕ) → ℕ → Machine → ℕ × Machine
handler_install address tickback s =
    let idt1 = install_handler (idt_entry page_fault) (address page_fault) s.idt in
    let idt2 = install_interrupt (idt_entry timer) (address timer) idt1 in
    let idt3 = install_interrupt (idt_entry keyboard) (address keyboard) idt2 in
    (
      0,
      record {
        idt = install_each address system_calls idt3;
        ports = s.ports ++ ((0x43, 0x36) ∷ (0x40, period % 256) ∷ (0x40, period / 256 % 256) ∷ []);
        callback = tickback;
        ring = setup_keyboard;
      },
    )
