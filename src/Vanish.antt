-- ===== src/Vanish.antt =====
-- kern/process/sys_life_cycle.c: the call `vanish`.
pub mod Steps
pub mod Leave
use p.Base.{ℕ, zero, suc, ◌+◌, Bool, true, false, not, ◌||◌, if◌then◌else◌, ◌==◌, update}
use p.LinkedList.{Ptr, null, Store, list_delete, list_insert_last}
use p.Kernel.{
  Kernel, ThreadState, exit, waiting, runnable, Run, Cmd, pure, modify, set_state, mutex_lock,
  mutex_unlock, tcb_mutex, blocked_queue, runnable_queue, process_queue, blocked_queue_lock,
  runnable_queue_lock, process_queue_lock, minus_one, ◌>>=◌, ◌>>◌,
}
use p.Sched.{search_loop, find_thread, has_tid, schedule}
use p.Thread.{change}
use p.Process.{Pcb, World, exited, has_exited, own_process}

-- The address of the local variable `threads`; any that no other list has would do.
abbrev pub local_threads : Ptr
local_threads = 6

-- `list threads = ...` copies the `list` object alone.
abbrev pub copy_list : Ptr → Ptr → Store → Store
copy_list to from m = record m {
  head = update m.head to (m.head from);
  tail = update m.tail to (m.tail from);
  length = update m.length to (m.length from);
}

abbrev pub is_exit : ThreadState → Bool
is_exit st = elim st [ exit ↦ true | _ ↦ false ]

abbrev pub is_waiting : ThreadState → Bool
is_waiting st = elim st [ waiting ↦ true | _ ↦ false ]

-- The loop that counts the threads that have not exited, from node `n` on.
unfoldable pub count_live : (Ptr → Bool) → (Ptr → Ptr) → ℕ → Ptr → ℕ
count_live live next zero n = 0
count_live live next (suc fuel) n =
    let rest = count_live live next fuel (next n) in
    if n == null then 0 else if live n then rest + 1 else rest

-- The loop that reaps the other threads. A node that has been freed still has its fields, from
-- which the loop goes on; `sfree` and `free` give the memory back to the allocator.
unfoldable pub reap_peers : (Ptr → Bool) → ℕ → Ptr → Store → Store
reap_peers other zero n m = m
reap_peers other (suc fuel) n m =
    let m1 = (list_delete local_threads n m).1 in
    let m2 = (list_delete blocked_queue n m1).1 in
    let m3 = (list_delete runnable_queue n m2).1 in
    let m' = if other n then m3 else m in
    let rest = reap_peers other fuel (m'.next n) m' in if n == null then m else rest

-- The three changes that make a blocked thread runnable.
unfoldable pub wake_up : Ptr → Cmd (Unit {0})
wake_up target = do
  change blocked_queue_lock (λ k. record k { store = (list_delete blocked_queue target k.store).1 })
  change (tcb_mutex target) (set_state target runnable)
  change runnable_queue_lock
      (λ k. record k { store = list_insert_last runnable_queue target k.store })

-- Who is told: a thread of the parent that waits, or the thread with the id 2. The copy
-- `parent_threads` is only read.
unfoldable pub report : World → Cmd (Unit {0})
report w k =
    let parent = (w.pcb (own_process w)).parent in
    let init = find_thread (has_tid 2) blocked_queue k in
    let l = (w.pcb parent).threads in
    let n =
      search_loop (λ n. is_waiting (k.tcb (w.peer n)).state) k.store.next (k.store.length l + 1)
        (k.store.head l) in
    if (parent == null) || has_exited (w.pcb parent)
    then (if init == null then pure tt k else wake_up init k)
    else if n == null
    then pure tt k
    else wake_up (w.peer n) k

-- What the last thread of a process does, with the local copy made and the process's state set.
unfoldable pub end_process : World → Cmd (Unit {0})
end_process w =
    let own = w.pcb (own_process w) in
    let id = (w.kernel.tcb w.kernel.current).tid in
    let other : Ptr → Bool = λ n. not ((w.kernel.tcb (w.peer n)).tid == id) in
    (do
      modify (λ k. record k {
        store =
            reap_peers other (k.store.length local_threads + 1) (k.store.head local_threads)
              k.store;
      })
      change process_queue_lock
          (λ k. record k { store = (list_delete process_queue own.all_processes_node k.store).1 })
      report w)

abbrev pub live_count : World → ℕ
live_count w =
    let l = (w.pcb (own_process w)).threads in
    let m = w.kernel.store in
    count_live (λ n. not (is_exit (w.kernel.tcb (w.peer n)).state)) m.next (m.length l + 1)
      (m.head l)

-- The process whose last thread has exited.
abbrev pub ended : World → World
ended w =
    let own = own_process w in
    record w { pcb = update w.pcb own (record (w.pcb own) { state = exited }) }

-- The processes behind the call, and what the thread comes to.
unfoldable pub sys_vanish : World → (Ptr → Pcb) × Run (Unit {0})
sys_vanish w =
    let c = w.kernel.current in
    let l = (w.pcb (own_process w)).threads in
    let copy : Cmd (Unit {0}) =
      modify (λ k. record k { store = copy_list local_threads l k.store }) in
    let leave : Cmd (Unit {0}) = do
      modify (set_state c exit)
      mutex_unlock (tcb_mutex c)
      schedule minus_one
    in if live_count w == 1
      then (
        (ended w).pcb,
        (mutex_lock (tcb_mutex c) >> copy >> end_process (ended w) >> leave) w.kernel,
      )
      else (w.pcb, (mutex_lock (tcb_mutex c) >> copy >> leave) w.kernel)
