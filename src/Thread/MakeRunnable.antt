-- ===== src/Thread/MakeRunnable.antt =====
-- `sys_make_runnable` moves the thread that it is asked for, if that is descheduled.
use p.Base.{
  ℕ, ◌<◌, ◌^◌, ◌≡◌, refl, ap, ◌∙◌, ◌≢◌, ◌⊎◌, false, List, [], ◌∷◌, ◌++◌, arith, inl, inr,
  ne→==-false, update, first,
}
use p.LinkedList.{Ptr, null, list_delete, list_insert_last}
use p.Kernel.{
  Kernel, ok, runnable, deschedule_lock, blocked_queue_lock, runnable_queue_lock, blocked_queue,
  runnable_queue, tcb_mutex, set_state, minus_one,
}
use p.Kernel.Queues.{Queues, wake-Queues}
use p.Sched.{find_thread}
use p.Sched.Search.{find_thread-first, waked-split, waked-real}
use p.Sched.Wake.{waked, asleep, awake}
use p.Thread.{sys_make_runnable, make_runnable, look, runs_already, can_wake, negative}
use p.Thread.Locks.{Quiet, locked, released, change-Quiet, look-Quiet, lock-Quiet, unlock-Quiet}

-- What has changed when thread `x` has become runnable.
pub record MadeRunnable (k k' : Kernel) (x : Ptr) (bs rs : List Ptr) : Type 0 where
  pub queues : Queues k'.store bs (rs ++ (x ∷ []))
  pub threads : k'.tcb ≡ update k.tcb x (awake (k.tcb x))
  pub current : k'.current ≡ k.current
  pub interrupts : k'.interrupts ≡ k.interrupts
  pub quiet : Quiet k'.mutex []

abbrev pub stage : ℕ → (Kernel → Kernel) → Kernel → Kernel
stage l f k = released l (f (locked l k))

abbrev pub unlink : Ptr → Kernel → Kernel
unlink x k = record k { store = (list_delete blocked_queue x k.store).1 }

abbrev pub append : Ptr → Kernel → Kernel
append x k = record k { store = list_insert_last runnable_queue x k.store }

make_runnable-MadeRunnable :
    (k : Kernel) (ys : List Ptr) (x : Ptr) (zs rs : List Ptr)
    → Quiet k.mutex []
    → Queues k.store (ys ++ (x ∷ zs)) rs
    → (k' : Kernel) × (make_runnable x k ≡ ok 0 k') × MadeRunnable k k' x (ys ++ zs) rs
unfolding make_runnable
make_runnable-MadeRunnable k ys x zs rs q queues =
    let ls = deschedule_lock ∷ [] in
    let k1 = locked deschedule_lock k in
    let (e1, q1) = lock-Quiet deschedule_lock k [] q refl in
    let k2 = stage (tcb_mutex x) (set_state x runnable) k1 in
    let (e2, q2) = change-Quiet (tcb_mutex x) (set_state x runnable) k1 ls q1 (ground arith) refl in
    let k3 = stage blocked_queue_lock (unlink x) k2 in
    let (e3, q3) = change-Quiet blocked_queue_lock (unlink x) k2 ls q2 refl refl in
    let k4 = stage runnable_queue_lock (append x) k3 in
    let (e4, q4) = change-Quiet runnable_queue_lock (append x) k3 ls q3 refl refl in
    let (e5, q5) = unlock-Quiet deschedule_lock k4 [] q4 in
    (
      released deschedule_lock k4,
      rw (e1, e2, e3, e4, e5) refl,
      record {
        queues = (wake-Queues k.store ys x zs rs queues).0;
        threads = refl;
        current = refl;
        interrupts = refl;
        quiet = q5;
      },
    )

-- The threads that the two searches of `sys_make_runnable` look for.
abbrev pub running_already : Kernel → ℕ → List Ptr → List Ptr
running_already k tid rs = waked (λ n. runs_already tid (k.tcb n)) rs

abbrev pub waiting_for : Kernel → ℕ → List Ptr → List Ptr
waiting_for k tid bs = waked (λ n. can_wake tid (k.tcb n)) bs

abbrev looked : ℕ → Kernel → Kernel
looked l k = released l (locked l k)

module _ (tid : ℕ) (k : Kernel) (bs rs : List Ptr) (pos : 0 < tid) (small : tid < 2 ^ 31)
    (q : Quiet k.mutex []) (queues : Queues k.store bs rs) where
  abbrev k1 : Kernel
  k1 = looked runnable_queue_lock k

  abbrev k2 : Kernel
  k2 = looked blocked_queue_lock k1

  look_runnable :
      (look runnable_queue_lock (find_thread (runs_already tid) runnable_queue) k
        ≡ ok (first null (running_already k tid rs)) k1)
      × Quiet k1.mutex []
  look_runnable =
      let (e, q1) =
        look-Quiet runnable_queue_lock (find_thread (runs_already tid) runnable_queue) k [] q
          refl in
      let at =
        find_thread-first (runs_already tid) (locked runnable_queue_lock k) runnable_queue rs
          queues.runnable in
      (e ∙ ap (λ n. ok n k1) at, q1)

  look_blocked :
      (look blocked_queue_lock (find_thread (can_wake tid) blocked_queue) k1
        ≡ ok (first null (waiting_for k tid bs)) k2)
      × Quiet k2.mutex []
  look_blocked =
      let (e, q1) =
        look-Quiet blocked_queue_lock (find_thread (can_wake tid) blocked_queue) k1 []
          look_runnable.1 refl in
      let at =
        find_thread-first (can_wake tid) (locked blocked_queue_lock k1) blocked_queue bs
          queues.blocked in
      (e ∙ ap (λ n. ok n k2) at, q1)

  signed : negative tid ≡ false
  signed = ground arith

  -- For a tid between 1 and 2 ^ 31 - 1, with the queues in order, no mutex held or waited for,
  -- no runnable thread with this tid in state runnable in the runnable queue, and x the first
  -- thread of the blocked queue that has this tid and is descheduled: sys_make_runnable returns
  -- 0, x has left the blocked queue for the end of the runnable queue and is runnable, no other
  -- thread, nor the running one or the interrupt flag, has changed, and no mutex is held.
  pub sys_make_runnable-MadeRunnable :
      (x : Ptr)
      → running_already k tid rs ≡ []
      → waiting_for k tid bs ≡ x ∷ []
      → (k' : Kernel) × (sys_make_runnable tid k ≡ ok 0 k')
        × MadeRunnable k k' x (asleep (λ n. can_wake tid (k.tcb n)) bs) rs
  unfolding sys_make_runnable
  sys_make_runnable-MadeRunnable x idle found_x =
      let (ys, zs, a, b) = waked-split (λ n. can_wake tid (k.tcb n)) bs x [] found_x in
      let real =
        waked-real k blocked_queue (λ n. can_wake tid (k.tcb n)) bs x [] queues.blocked found_x in
      let (k', e, m) = make_runnable-MadeRunnable k2 ys x zs rs look_blocked.1 (rw a at queues) in
      (
        k',
        rw
            (
              ne→==-false tid 0 (omega arith),
              signed,
              look_runnable.0,
              idle,
              look_blocked.0,
              found_x,
              ne→==-false x null real,
            )
            e,
        record {
          queues = rw b m.queues;
          threads = m.threads;
          current = m.current;
          interrupts = m.interrupts;
          quiet = m.quiet;
        },
      )

  -- For a tid between 1 and 2 ^ 31 - 1, with the queues in order and no mutex held or waited
  -- for: when a thread with this tid is in the runnable queue in state runnable, or no thread
  -- of the blocked queue with this tid is descheduled, sys_make_runnable returns -1, the queues
  -- and the threads are as before, and no mutex is held.
  sys_make_runnable-refuses :
      (runs : List Ptr)
      → running_already k tid rs ≡ runs
      → (runs ≢ []) ⊎ (waiting_for k tid bs ≡ [])
      → (k' : Kernel) × (sys_make_runnable tid k ≡ ok minus_one k')
        × (k'.store ≡ k.store)
        × (k'.tcb ≡ k.tcb)
        × Quiet k'.mutex []
  unfolding sys_make_runnable
  sys_make_runnable-refuses (y ∷ ws) e why =
      let real =
        waked-real k runnable_queue (λ n. runs_already tid (k.tcb n)) rs y ws queues.runnable e in
      (
        k1,
        rw (ne→==-false tid 0 (omega arith), signed, look_runnable.0, e, ne→==-false y null real)
            refl,
        refl,
        refl,
        look_runnable.1,
      )
  sys_make_runnable-refuses [] e (inl ne) = absurd (ne refl)
  sys_make_runnable-refuses [] e (inr nobody) = (
    k2,
    rw (ne→==-false tid 0 (omega arith), signed, look_runnable.0, e, look_blocked.0, nobody) refl,
    refl,
    refl,
    look_blocked.1,
  )
