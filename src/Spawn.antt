-- ===== src/Spawn.antt =====
-- kern/process/sys_life_cycle.c: the call `thread_fork`.
pub mod Peers
pub mod Child
pub mod Second
use p.Base.{ℕ, ◌+◌, ◌-◌, ◌*◌, ◌%◌, ◌^◌, update}
use p.LinkedList.{Ptr, list_insert_last}
use p.Kernel.{Kernel, init, runnable_queue}
use p.Process.{World, own_process}
use p.Vanish.{local_threads, copy_list}

-- The registers of a `ureg_t` that the kernel keeps for a thread in user mode.
pub record Ureg : Type 0 where
  pub ds : ℕ
  pub es : ℕ
  pub fs : ℕ
  pub gs : ℕ
  pub edi : ℕ
  pub esi : ℕ
  pub ebp : ℕ
  pub ebx : ℕ
  pub edx : ℕ
  pub ecx : ℕ
  pub eax : ℕ
  pub eip : ℕ
  pub cs : ℕ
  pub eflags : ℕ
  pub esp : ℕ
  pub ss : ℕ

-- The fields of a TCB that only the making of threads uses, by the address of its
-- `thread_list_node`; `memory` gives the words of the kernel's memory.
pub record Machine : Type 0 where
  pub world : World
  pub registers : Ptr → Ureg
  pub stack_base : Ptr → ℕ
  pub stack_size : Ptr → ℕ
  pub esp : Ptr → ℕ
  pub next_tid : ℕ
  pub memory : ℕ → ℕ

-- What `malloc` and `memalign` return: the two nodes of the new TCB, and the kernel stack.
pub record Fresh : Type 0 where
  pub thread_list_node : Ptr
  pub peer_threads_node : Ptr
  pub stack_base : ℕ

-- What the trap has pushed is at the top of the kernel stack.
unfoldable pub trapped : (ℕ → ℕ) → ℕ → Ureg → Ureg
trapped memory kernel_stack r = record r {
  ss = memory (kernel_stack + 4 * 14);
  esp = memory (kernel_stack + 4 * 13);
  eflags = memory (kernel_stack + 4 * 12);
  cs = memory (kernel_stack + 4 * 11);
  eip = memory (kernel_stack + 4 * 10);
  ebp = memory (kernel_stack + 4 * 9);
  edi = memory (kernel_stack + 4 * 8);
  esi = memory (kernel_stack + 4 * 7);
  edx = memory (kernel_stack + 4 * 6);
  ecx = memory (kernel_stack + 4 * 5);
  ebx = memory (kernel_stack + 4 * 4);
}

-- The registers of the running thread, as it trapped.
abbrev pub own_registers : Machine → Ureg
own_registers s =
    let c = s.world.kernel.current in
    trapped s.memory (s.stack_base c + s.stack_size c - 60) (s.registers c)

-- The two insertions, the first of them into a copy of the process's list of threads.
abbrev pub enlist : Fresh → World → World
enlist fresh w =
    let k = w.kernel in
    let copied = copy_list local_threads (w.pcb (own_process w)).threads k.store in
    let peers = list_insert_last local_threads fresh.peer_threads_node copied in
    record w {
      kernel = record k { store = list_insert_last runnable_queue fresh.thread_list_node peers };
      process = update w.process fresh.thread_list_node (own_process w);
      peer = update w.peer fresh.peer_threads_node fresh.thread_list_node;
    }

-- The fields that the call does not set are as the allocator has left them.
unfoldable pub sys_thread_fork : Fresh → Machine → ℕ × Machine
sys_thread_fork fresh s =
    let k = s.world.kernel in
    let c = k.current in
    let child = fresh.thread_list_node in
    let parent = s.world.pcb (own_process s.world) in
    let r = own_registers s in
    let top = (fresh.stack_base + s.stack_size c) % 2 ^ 32 in
    let t = record (k.tcb child) {
      tid = s.next_tid;
      state = init;
      pd = parent.pd;
      stack_top = top;
    } in
    let w = enlist fresh s.world in
    (
      s.next_tid,
      record s {
        world = record w { kernel = record w.kernel { tcb = update k.tcb child t } };
        registers =
            update (update s.registers child (record r { eax = 0 })) c
              (record r { eax = s.next_tid });
        stack_base = update s.stack_base child fresh.stack_base;
        stack_size = update s.stack_size child (s.stack_size c);
        esp = update s.esp child top;
        next_tid = (s.next_tid + 1) % 2 ^ 32;
      },
    )
