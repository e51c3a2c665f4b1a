-- ===== src/User/Autostack.antt =====
-- user/libautostack/autostack.c: the growth of the stack of a program with one thread. What the
-- system calls `new_pages` and `swexn` answer are arguments, each result the pattern of an `int`.
pub mod Growth
use p.Base.{
  ℕ, ◌+◌, ◌-◌, ◌*◌, ◌/◌, ◌%◌, ◌^◌, Bool, true, not, ◌||◌, Option, none, some, if◌then◌else◌, ◌==◌,
  ltb, leb,
}
use p.Frames.{page_size}

-- The saved registers that the handler reads.
pub record Fault : Type 0 where
  pub cause : ℕ
  pub cr2 : ℕ
  pub error_code : ℕ
  pub esp : ℕ

-- EXCEP_STACK, WORDSIZE, LAST_ADDR and SWEXN_CAUSE_PAGEFAULT
abbrev pub excep_stack : ℕ
excep_stack = 0x1EFFFFC

abbrev pub wordsize : ℕ
wordsize = 4

abbrev pub last_addr : ℕ
last_addr = excep_stack + page_size

abbrev pub swexn_cause_pagefault : ℕ
swexn_cause_pagefault = 0x0E

-- How a call of the handler ends: in `task_vanish(-1)`, in `vanish`, in `thr_exit(-1)`, or in the
-- registers of the fault, with a page at the address given. `crashed` is a read through NULL.
pub data Handled : Type 0 where
  task_vanished vanished exited crashed : Handled
  resumed : ℕ → Handled

abbrev pub is_negative : ℕ → Bool
is_negative x = leb (2 ^ 31) x

unfoldable pub handle_fault : (ℕ → ℕ → ℕ) → Bool → Fault → Handled
handle_fault new_pages is_single_threaded ureg =
    if not is_single_threaded
    then task_vanished
    else if not (ureg.cause == swexn_cause_pagefault) || not (ureg.error_code % 2 == 0)
    then vanished
    else if ltb ureg.cr2 last_addr
    then vanished
    else if ltb ureg.cr2 ureg.esp
    then vanished
    else let aligned_addr = ureg.cr2 / page_size * page_size in
      if is_negative (new_pages aligned_addr page_size) then exited else resumed aligned_addr

-- The handler reads `cr2` ahead of its test of the pointer.
unfoldable pub myhandler : (ℕ → ℕ → ℕ) → Bool → Option Fault → Handled
myhandler new_pages is_single_threaded none = crashed
myhandler new_pages is_single_threaded (some ureg) = handle_fault new_pages is_single_threaded ureg

-- The library's globals.
pub record StackInfo : Type 0 where
  pub is_single_threaded : Bool
  pub global_root_tid : ℕ

-- `none` is a call that ends the thread by `thr_exit(-1)`.
unfoldable pub install_autostack : (ℕ → ℕ → ℕ) → (ℕ → ℕ) → ℕ → ℕ → StackInfo → Option StackInfo
install_autostack new_pages swexn this stack_low info =
    if not (stack_low % page_size == 0)
    then none
    else if leb stack_low page_size || not (stack_low % page_size == 0)
    then none
    else if is_negative (new_pages (excep_stack + wordsize - page_size) page_size)
    then none
    else if is_negative (swexn (excep_stack + wordsize))
    then none
    else some (record { is_single_threaded = true; global_root_tid = this })
