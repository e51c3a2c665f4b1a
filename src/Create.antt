-- ===== src/Create.antt =====
-- kern/thread/thread_basic.c: the first threads. What `malloc`, `smemalign` and `get_eflags` return
-- is an argument.
pub mod Queued
use p.Base.{ℕ, ◌+◌, ◌-◌, ◌*◌, ◌/◌, ◌%◌, ◌^◌, Bool, if◌then◌else◌, ◌==◌, update}
use p.LinkedList.{Ptr, list_init, list_insert_last}
use p.Kernel.{
  Kernel, running, init, runnable_queue, blocked_queue, blocked_queue_lock, runnable_queue_lock,
  deschedule_lock, tcb_mutex, mutex_init,
}
use p.Swexn.{user_cs, user_ds}
use p.Spawn.{Ureg, Machine, Fresh}

-- `x | EFL_RESV1`, `x & ~EFL_AC` and `x | EFL_IF`
abbrev pub with_resv1 : ℕ → ℕ
with_resv1 x = x / 2 ^ 2 * 2 ^ 2 + 2 + x % 2

abbrev pub without_ac : ℕ → ℕ
without_ac x = x / 2 ^ 19 * 2 ^ 19 + x % 2 ^ 18

abbrev pub with_if : ℕ → ℕ
with_if x = x / 2 ^ 10 * 2 ^ 10 + 2 ^ 9 + x % 2 ^ 9

abbrev pub set_kernel : Kernel → Machine → Machine
set_kernel k s = record s { world = record s.world { kernel = k } }

unfoldable pub thr_init : Machine → Machine
unfolding list_init mutex_init
thr_init s =
    let k = s.world.kernel in
    let k' = record k { store = list_init blocked_queue (list_init runnable_queue k.store) } in
    record (set_kernel
      (mutex_init deschedule_lock
        (mutex_init runnable_queue_lock (mutex_init blocked_queue_lock k')))
      s) { next_tid = 1 }

-- The registers with which the thread enters user mode.
unfoldable pub user_registers : ℕ → ℕ → Ureg
user_registers eip eflags = record {
  ds = user_ds;
  es = user_ds;
  fs = user_ds;
  gs = user_ds;
  edi = 0;
  esi = 0;
  ebp = 0xffffffff;
  ebx = 0;
  edx = 0;
  ecx = 0;
  eax = 0;
  eip = eip;
  cs = user_cs;
  eflags = with_if (without_ac (with_resv1 eflags));
  esp = 0xffffff10;
  ss = user_ds;
}

-- The TCB that is returned is the one of the new thread's node; its pcb is set by the caller, and
-- the top of its kernel stack, which a switch to it loads, is that of its base and its size.
unfoldable pub thr_create : Fresh → ℕ → ℕ → ℕ → Machine → Machine
unfolding user_registers mutex_init
thr_create fresh get_eflags eip run s =
    let tcb = fresh.thread_list_node in
    let k = mutex_init (tcb_mutex tcb) s.world.kernel in
    let k' = record k {
      tcb = update k.tcb tcb (record (k.tcb tcb) {
        tid = s.next_tid;
        state = if run == 0 then init else running;
        stack_top = (fresh.stack_base + 4096) % 2 ^ 32;
      });
      store = if run == 0 then list_insert_last runnable_queue tcb k.store else k.store;
    } in
    record (set_kernel k' s) {
      registers = update s.registers tcb (user_registers eip get_eflags);
      stack_base = update s.stack_base tcb fresh.stack_base;
      stack_size = update s.stack_size tcb 4096;
      esp = update s.esp tcb ((4096 + fresh.stack_base + 2 ^ 32 - 4) % 2 ^ 32);
      next_tid = (s.next_tid + 1) % 2 ^ 32;
    }
