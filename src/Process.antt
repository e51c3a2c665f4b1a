-- ===== src/Process.antt =====
-- kern/process/sys_life_cycle.c: the calls `wait` and `set_status`, and the processes of
-- kern/inc/control_block.h.
pub mod Reap
pub mod Wait
use p.Base.{
  ℕ, ◌+◌, ◌-◌, ◌%◌, ◌^◌, Bool, true, false, not, ◌&&◌, Option, none, some, if◌then◌else◌, ◌==◌,
  update,
}
use p.LinkedList.{Ptr, null, Store, list_delete}
use p.Kernel.{
  Kernel, waiting, Run, ok, fault, contended, Cmd, mutex_lock, mutex_unlock, tcb_mutex, set_state,
  minus_one, ◌>>◌,
}
use p.Paging.{Vm, is_user_addr, destroy_page_directory}
use p.Sched.{search_loop, schedule}
use p.Thread.{change}

-- PROCESS_EXIT and the other constants.
pub data ProcessState : Type 0 where
  exited blocked running runnable idle : ProcessState

-- The fields of a PCB that these calls use; `threads` and `children` are the addresses of the lists
-- in it, and `all_processes_node` that of its node in the process queue.
pub record Pcb : Type 0 where
  pub pid : ℕ
  pub state : ProcessState
  pub return_state : ℕ
  pub parent : Ptr
  pub threads : Ptr
  pub children : Ptr
  pub all_processes_node : Ptr
  pub children_count : ℕ
  pub pd : ℕ

-- A PCB is known by the address of its `peer_processes_node`; `process` gives a thread's process, and
-- `peer` the thread that a `peer_threads_node` is in.
pub record World : Type 0 where
  pub kernel : Kernel
  pub pcb : Ptr → Pcb
  pub process : Ptr → Ptr
  pub peer : Ptr → Ptr
  pub vm : Vm

abbrev pub has_exited : Pcb → Bool
has_exited c = elim c.state [ exited ↦ true | _ ↦ false ]

-- The process of the running thread.
abbrev pub own_process : World → Ptr
own_process w = w.process w.kernel.current

-- The loop over the children, up to one that has exited; NULL where none has.
unfoldable pub find_exited : World → Ptr
find_exited w =
    let l = (w.pcb (own_process w)).children in
    let m = w.kernel.store in
    search_loop (λ n. has_exited (w.pcb n)) m.next (m.length l + 1) (m.head l)

-- The two calls of `free` give the child's page directory and PCB back to the allocator.
unfoldable pub reap : Ptr → World → World
reap child w =
    let own = own_process w in
    let parent = w.pcb own in
    record w {
      kernel = record w.kernel { store = (list_delete parent.children child w.kernel.store).1 };
      pcb =
          update w.pcb own
            (record parent { children_count = (parent.children_count + 2 ^ 32 - 1) % 2 ^ 32 });
      vm = destroy_page_directory (w.pcb child).pd w.vm;
    }

-- What a part of `sys_wait` comes to: a result, what it stores through the pointer, and the state;
-- or the call of `schedule` from which it goes on when a child has exited.
pub data Waiting : Type 0 where
  returns : ℕ → Option ℕ → World → Waiting
  sleeps : Run (Unit {0}) → Waiting

abbrev pub reaped : ℕ → Ptr → World → Waiting
reaped status_ptr child w =
    returns (w.pcb child).pid
      (if not (status_ptr == 0) then some (w.pcb child).return_state else none) (reap child w)

-- `sys_wait` up to its call of `schedule`, and from there on.
unfoldable pub wait_start : ℕ → World → Waiting
wait_start status_ptr w =
    let child = find_exited w in
    let c = w.kernel.current in
    if not (status_ptr == 0) && not (is_user_addr status_ptr)
    then returns minus_one none w
    else if (w.pcb (own_process w)).children_count == 0
    then returns minus_one none w
    else if not (child == null)
    then reaped status_ptr child w
    else sleeps ((change (tcb_mutex c) (set_state c waiting) >> schedule minus_one) w.kernel)

unfoldable pub wait_end : ℕ → World → Waiting
wait_end status_ptr w =
    let child = find_exited w in
    if not (child == null) then reaped status_ptr child w else returns minus_one none w

-- The change of the process's return state under the thread's mutex.
unfoldable pub sys_set_status : ℕ → World → Option World
sys_set_status status w =
    let own = own_process w in
    let l = tcb_mutex w.kernel.current in
    elim (mutex_lock l w.kernel) [
      | ok u k ↦ elim (mutex_unlock l k) [
        | ok v k' ↦ some (record w {
          kernel = k';
          pcb = update w.pcb own (record (w.pcb own) { return_state = status });
        })
        | fault ↦ none
        | contended ↦ none
      ]
      | fault ↦ none
      | contended ↦ none
    ]
