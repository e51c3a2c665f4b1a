-- ===== src/Sched.antt =====
-- kern/process/scheduler.c: which thread runs next.
pub mod Wake
pub mod Search
pub mod Park
pub mod Switch
pub mod Schedule
pub mod Idle
use p.Base.{
  ℕ, zero, suc, ◌+◌, ◌%◌, ◌^◌, ◌*◌, Bool, true, false, not, ◌&&◌, Option, none, some, if◌then◌else◌,
  ◌==◌, ltb, update,
}
use p.LinkedList.{Ptr, null, Store, list_begin, list_delete, list_delete_first, list_insert_last}
use p.LinkedList.Move.{move}
use p.Kernel.{
  Kernel, Tcb, ThreadState, exit, blocked, running, runnable, waiting, sleeping, init, readline,
  Run, ok, fault, contended, Cmd, pure, ◌>>=◌, ◌>>◌, modify, set_state, blocked_queue,
  runnable_queue, deschedule_lock, mutex_unlock, minus_one,
}

-- SCHEDULE_INTERVAL
abbrev pub schedule_interval : ℕ
schedule_interval = 30

abbrev pub is_sleeping : ThreadState → Bool
is_sleeping sleeping = true
is_sleeping _ = false

-- A sleeping thread whose time has come. The sum wraps, as `unsigned int`s do.
abbrev pub is_due : ℕ → Tcb → Bool
is_due now t = is_sleeping t.state && ltb ((t.start_ticks + t.duration) % 2 ^ 32) now

-- The thread at `n` goes from the blocked to the runnable queue.
abbrev pub wake_one : Ptr → Kernel → Kernel
wake_one n k =
    let k' = set_state n runnable k in
    record k' { store = move blocked_queue runnable_queue n k'.store }

-- The loop of `schedule` over the blocked queue, from node `n`. The node's `next` is read after the
-- node may have been moved. `none` is a loop that has used up its fuel.
unfoldable pub wake_loop : ℕ → Ptr → Kernel → Option Kernel
wake_loop zero n k = if n == null then some k else none
wake_loop (suc fuel) n k =
    let k' = if is_due k.ticks (k.tcb n) then wake_one n k else k in
    let rest = wake_loop fuel (k'.store.next n) k' in if n == null then some k else rest

-- One round for each blocked thread and one for the end.
unfoldable pub wake_sleepers : Kernel → Option Kernel
wake_sleepers k = wake_loop (k.store.length blocked_queue + 1) (list_begin blocked_queue k.store) k

-- A loop from node `n` for the first node that passes a test; NULL where none does, and when the
-- fuel is used up.
unfoldable pub search_loop : (Ptr → Bool) → (Ptr → Ptr) → ℕ → Ptr → Ptr
search_loop test next zero n = null
search_loop test next (suc fuel) n =
    let rest = search_loop test next fuel (next n) in
    if n == null then null else if test n then n else rest

-- One round for each node and one for the end.
unfoldable pub find_thread : (Tcb → Bool) → Ptr → Kernel → Ptr
find_thread test l k =
    search_loop (λ n. test (k.tcb n)) k.store.next (k.store.length l + 1) (k.store.head l)

abbrev pub has_tid : ℕ → Tcb → Bool
has_tid tid t = t.tid == tid

unfoldable pub list_search_tid : Ptr → ℕ → Kernel → Ptr
list_search_tid l tid k = if l == null then null else find_thread (has_tid tid) l k

-- `prepare_init_thread`, which a thread runs in that has never run before.
unfoldable pub prepare_init_thread : Ptr → Kernel → Kernel
prepare_init_thread next k =
    let k' = set_state next running k in record k' { current = next; interrupts = true }

-- Where `do_switch` continues, by the state of the thread that is switched to.
abbrev pub enter_thread : ThreadState → Ptr → Kernel → Kernel
enter_thread init next k = prepare_init_thread next k
enter_thread _ next k = k

-- `context_switch`: `do_switch` goes on in `next`, where its own call of `context_switch` returns
-- `next`, or, for a thread that has never run, in `prepare_init_thread`.
unfoldable pub context_switch : Ptr → Kernel → Kernel
context_switch next k =
    enter_thread (k.tcb next).state next
      (record k { cr3 = (k.tcb next).pd; esp0 = (k.tcb next).stack_top; current = next })

-- Where the thread that gives up the processor goes.
unfoldable pub park : Ptr → ThreadState → Cmd (Unit {0})
park c exit = pure tt
park c blocked = do
  modify (λ k. record k { store = list_insert_last blocked_queue c k.store })
  mutex_unlock deschedule_lock
park c waiting = modify (λ k. record k { store = list_insert_last blocked_queue c k.store })
park c readline = modify (λ k. record k { store = list_insert_last blocked_queue c k.store })
park c sleeping = modify (λ k. record k { store = list_insert_last blocked_queue c k.store })
park c _ = modify (λ k. record k { store = list_insert_last runnable_queue c k.store })

-- The next thread is taken out of the runnable queue. With none there, or none of that id, the code
-- goes on with a pointer computed from NULL.
unfoldable pub pick : ℕ → Cmd Ptr
pick tid k =
    if tid == minus_one
    then (let (n, m) = list_delete_first runnable_queue k.store in
        if n == null then fault else ok n (record k { store = m }))
    else let n = list_search_tid runnable_queue tid k in
      if n == null
      then fault
      else ok n (record k { store = (list_delete runnable_queue n k.store).1 })

-- `schedule` behind the loop over the sleeping threads.
unfoldable pub switch_to : ℕ → Cmd (Unit {0})
switch_to tid k =
    if ((k.tcb k.current).tid == 1) && (k.store.length runnable_queue == 0)
    then ok tt k
    else let c = k.current in
      (do
        next ← pick tid
        park c (k.tcb c).state
        modify (λ k'. record (context_switch next k') { interrupts = true }))
        k

unfoldable pub schedule : ℕ → Cmd (Unit {0})
schedule tid k = elim (wake_sleepers (record k { interrupts = false })) [
  | none ↦ fault
  | some k' ↦ switch_to tid k'
]

unfoldable pub tick : ℕ → Cmd (Unit {0})
tick num_ticks k = if num_ticks % schedule_interval == 0 then schedule minus_one k else ok tt k

-- `timer_handler` of kern/hardware/timer.c, with `tick` installed as the callback.
unfoldable pub timer_handler : Cmd (Unit {0})
timer_handler k = let k' = record k { ticks = (k.ticks + 1) % 2 ^ 32 } in tick k'.ticks k'

unfoldable pub sys_get_ticks : Kernel → ℕ
sys_get_ticks k = k.ticks
