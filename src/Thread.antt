-- ===== src/Thread.antt =====
-- kern/thread/sys_thread_management.c: the system calls on threads.
pub mod Locks
pub mod GiveUp
pub mod Yield
pub mod MakeRunnable
use p.Base.{
  ℕ, ◌+◌, ◌^◌, Bool, true, false, not, ◌&&◌, ◌||◌, Option, none, some, if◌then◌else◌, ◌==◌, leb,
  update,
}
use p.LinkedList.{Ptr, null, list_delete, list_insert_last}
use p.Kernel.{
  Kernel, Tcb, ThreadState, blocked, runnable, sleeping, Cmd, pure, ◌>>=◌, ◌>>◌, modify, set_state,
  blocked_queue, runnable_queue, blocked_queue_lock, runnable_queue_lock, deschedule_lock,
  tcb_mutex, mutex_lock, mutex_unlock, minus_one, ok,
}
use p.Sched.{find_thread, has_tid, schedule}

-- A reading of the state between `mutex_lock` and `mutex_unlock`, and a change.
abbrev pub look : {A : Type 0} → ℕ → (Kernel → A) → Cmd A
look l f = do mutex_lock l; a ← (λ k. ok (f k) k); mutex_unlock l; pure a

abbrev pub change : ℕ → (Kernel → Kernel) → Cmd (Unit {0})
change l f = do mutex_lock l; modify f; mutex_unlock l

abbrev pub is_runnable : ThreadState → Bool
is_runnable runnable = true
is_runnable _ = false

abbrev pub is_blocked : ThreadState → Bool
is_blocked blocked = true
is_blocked _ = false

-- `int`s are 32-bit patterns.
abbrev pub negative : ℕ → Bool
negative a = leb (2 ^ 31) a

-- `sys_yield` behind its check of the blocked queue, with the running thread `c`.
unfoldable pub yield_to : Ptr → ℕ → Cmd ℕ
yield_to c tid = do
  own ← look (tcb_mutex c) (λ k. (k.tcb k.current).tid == tid)
  (if own then pure minus_one else (do
    n ← look runnable_queue_lock (find_thread (has_tid tid) runnable_queue)
    if n == null then pure minus_one else (schedule tid >> pure 0)))

unfoldable pub sys_yield : ℕ → Cmd ℕ
sys_yield tid k =
    if negative tid && not (tid == minus_one)
    then pure minus_one k
    else if tid == minus_one
    then (schedule minus_one >> pure 0) k
    else (do
      n ← look blocked_queue_lock (find_thread (has_tid tid) blocked_queue)
      if not (n == null) then pure minus_one else yield_to k.current tid)
        k

-- `reject` is the value behind the pointer; `none` is a pointer that the two tests on it refuse.
unfoldable pub sys_deschedule : Option ℕ → Cmd ℕ
sys_deschedule none k = pure minus_one k
sys_deschedule (some reject) k =
    (do
      mutex_lock deschedule_lock
      (if not (reject == 0) then (mutex_unlock deschedule_lock >> pure 0) else (do
        change (tcb_mutex k.current) (set_state k.current blocked)
        schedule minus_one
        pure 0)))
      k

-- The second half of `sys_make_runnable`, with the thread that it has found.
unfoldable pub make_runnable : Ptr → Cmd ℕ
make_runnable target = do
  mutex_lock deschedule_lock
  change (tcb_mutex target) (set_state target runnable)
  change blocked_queue_lock (λ k. record k { store = (list_delete blocked_queue target k.store).1 })
  change runnable_queue_lock
      (λ k. record k { store = list_insert_last runnable_queue target k.store })
  mutex_unlock deschedule_lock
  pure 0

abbrev pub runs_already : ℕ → Tcb → Bool
runs_already tid t = has_tid tid t && is_runnable t.state

abbrev pub can_wake : ℕ → Tcb → Bool
can_wake tid t = has_tid tid t && is_blocked t.state

unfoldable pub sys_make_runnable : ℕ → Cmd ℕ
sys_make_runnable tid k =
    if (tid == 0) || negative tid
    then pure minus_one k
    else (do
      n ← look runnable_queue_lock (find_thread (runs_already tid) runnable_queue)
      (if not (n == null) then pure minus_one else (do
        target ← look blocked_queue_lock (find_thread (can_wake tid) blocked_queue)
        if target == null then pure minus_one else make_runnable target)))
        k

unfoldable pub sys_gettid : Kernel → ℕ
sys_gettid k = (k.tcb k.current).tid

-- The running thread's fields for a sleep of `ticks` from now on.
abbrev pub fall_asleep : ℕ → Kernel → Kernel
fall_asleep ticks k = record k {
  tcb =
      update k.tcb k.current
        (record (k.tcb k.current) { duration = ticks; start_ticks = k.ticks; state = sleeping });
}

unfoldable pub sys_sleep : ℕ → Cmd ℕ
sys_sleep ticks k =
    if negative ticks
    then pure minus_one k
    else if ticks == 0
    then pure 0 k
    else (do change (tcb_mutex k.current) (fall_asleep ticks); schedule minus_one; pure 0) k
