-- ===== src/Thread/Yield.antt =====
-- `sys_yield` to a given thread.
use p.Base.{
  ℕ, ◌<◌, ◌^◌, ◌≡◌, refl, ap, ◌∙◌, ◌≢◌, ◌⊎◌, true, false, Bool, List, [], ◌∷◌, ◌++◌, arith, ◌==◌,
  Bool-cases, inl, inr, ne→==-false, ==_refl, first,
}
use p.LinkedList.{Ptr, null}
use p.Kernel.{
  Kernel, ok, deschedule_lock, blocked_queue_lock, runnable_queue_lock, blocked_queue,
  runnable_queue, tcb_mutex, minus_one,
}
use p.Kernel.Queues.{Queues}
use p.Sched.{find_thread, has_tid}
use p.Sched.Search.{find_thread-first, waked-real}
use p.Sched.Wake.{waked, asleep, due_in}
use p.Sched.Park.{blocked_after, runnable_after}
use p.Sched.Switch.{CanSwitch, Switched}
use p.Sched.Schedule.{schedule_tid-Switched}
use p.Thread.{sys_yield, yield_to, look, negative}
use p.Thread.Locks.{Quiet, locked, released, look-Quiet}

-- The threads with an id, of which a search finds the first.
abbrev pub with_tid : Kernel → ℕ → List Ptr → List Ptr
with_tid k tid xs = waked (λ n. has_tid tid (k.tcb n)) xs

waked-append :
    (test : Ptr → Bool) (xs ys : List Ptr) (x : Ptr) (ws : List Ptr)
    → waked test xs ≡ x ∷ ws
    → waked test (xs ++ ys) ≡ x ∷ ws
waked-append test [] ys x ws e = absurd (cc)
waked-append test (y ∷ xs) ys x ws e = elim (Bool-cases (test y)) [
  | inl hit ↦ rw hit (rw hit at e)
  | inr miss ↦ rw miss (waked-append test xs ys x ws (rw miss at e))
]

abbrev looked : ℕ → Kernel → Kernel
looked l k = released l (locked l k)

-- What a call that is refused leaves behind.
abbrev pub Refused : ℕ → Kernel → Type 0
Refused tid k =
    (k' : Kernel) × (sys_yield tid k ≡ ok minus_one k')
    × (k'.store ≡ k.store)
    × (k'.tcb ≡ k.tcb)
    × (k'.current ≡ k.current)
    × Quiet k'.mutex []

module _ (tid : ℕ) (k : Kernel) (bs rs : List Ptr) (small : tid < 2 ^ 31) (q : Quiet k.mutex [])
    (queues : Queues k.store bs rs) where
  abbrev own_lock : ℕ
  own_lock = tcb_mutex k.current

  abbrev k1 : Kernel
  k1 = looked blocked_queue_lock k

  abbrev k2 : Kernel
  k2 = looked own_lock k1

  abbrev k3 : Kernel
  k3 = looked runnable_queue_lock k2

  look_blocked :
      (look blocked_queue_lock (find_thread (has_tid tid) blocked_queue) k
        ≡ ok (first null (with_tid k tid bs)) k1)
      × Quiet k1.mutex []
  look_blocked =
      let (e, q1) =
        look-Quiet blocked_queue_lock (find_thread (has_tid tid) blocked_queue) k [] q refl in
      let at =
        find_thread-first (has_tid tid) (locked blocked_queue_lock k) blocked_queue bs
          queues.blocked in
      (e ∙ ap (λ n. ok n k1) at, q1)

  look_own :
      (look own_lock (λ a. (a.tcb a.current).tid == tid) k1 ≡ ok ((k.tcb k.current).tid == tid) k2)
      × Quiet k2.mutex []
  look_own = look-Quiet own_lock (λ a. (a.tcb a.current).tid == tid) k1 [] look_blocked.1 refl

  look_runnable :
      (look runnable_queue_lock (find_thread (has_tid tid) runnable_queue) k2
        ≡ ok (first null (with_tid k tid rs)) k3)
      × Quiet k3.mutex []
  look_runnable =
      let (e, q1) =
        look-Quiet runnable_queue_lock (find_thread (has_tid tid) runnable_queue) k2 [] look_own.1
          refl in
      let at =
        find_thread-first (has_tid tid) (locked runnable_queue_lock k2) runnable_queue rs
          queues.runnable in
      (e ∙ ap (λ n. ok n k3) at, q1)

  signed : negative tid ≡ false
  signed = ground arith

  not_any : (tid == minus_one) ≡ false
  not_any = ground arith

  -- For a tid below 2 ^ 31, with the queues in order, the running thread in neither, no mutex
  -- held or waited for and the queues shorter than 2 ^ 32 - 3 together, where no blocked thread
  -- and not the caller has the tid and x is the first runnable thread that has it: sys_yield
  -- comes to the switch in which x takes over the processor, the caller is at the end of the
  -- queue that its state asks for, all other threads keep their order but for the sleeper that
  -- wakes, and the result is 0.
  pub sys_yield-Switched :
      (x : Ptr) (ws : List Ptr)
      → with_tid k tid bs ≡ []
      → (k.tcb k.current).tid ≢ tid
      → with_tid k tid rs ≡ x ∷ ws
      → CanSwitch k bs rs
      → (k' : Kernel) × (sys_yield tid k ≡ ok 0 k')
        × Switched k k' x (blocked_after (k.tcb k.current).state k.current (asleep (due_in k) bs)) (
            runnable_after
              (k.tcb k.current).state
              k.current
              (asleep (λ n. has_tid tid (k.tcb n)) (rs ++ waked (due_in k) bs)))
  unfolding sys_yield yield_to
  sys_yield-Switched x ws free other there can =
      let real =
        waked-real k runnable_queue (λ n. has_tid tid (k.tcb n)) rs x ws queues.runnable there in
      let can3 : CanSwitch k3 bs rs = record {
        queues = can.queues;
        outside = can.outside;
        room = can.room;
        free = look_runnable.1.calm deschedule_lock;
      } in
      let (k', e, s) =
        schedule_tid-Switched tid k3 bs rs x ws (ground (arith, small)) can3
          (waked-append (λ n. has_tid tid (k.tcb n)) rs (waked (due_in k) bs) x ws there) in
      (
        k',
        rw
            (
              signed,
              not_any,
              look_blocked.0,
              free,
              look_own.0,
              ne→==-false (k.tcb k.current).tid tid other,
              look_runnable.0,
              there,
              ne→==-false x null real,
              e,
            )
            refl,
        record {
          queues = s.queues;
          current = s.current;
          outside = s.outside;
          cr3 = s.cr3;
          esp0 = s.esp0;
          interrupts = s.interrupts;
        },
      )

  refuse_blocked : (y : Ptr) (ws : List Ptr) → with_tid k tid bs ≡ y ∷ ws → Refused tid k
  unfolding sys_yield
  refuse_blocked y ws e =
      let real = waked-real k blocked_queue (λ n. has_tid tid (k.tcb n)) bs y ws queues.blocked e in
      (
        k1,
        rw (signed, not_any, look_blocked.0, e, ne→==-false y null real) refl,
        refl,
        refl,
        refl,
        look_blocked.1,
      )

  refuse_own : with_tid k tid bs ≡ [] → (k.tcb k.current).tid ≡ tid → Refused tid k
  unfolding sys_yield yield_to
  refuse_own free own =
      let same : ((k.tcb k.current).tid == tid) ≡ true = rw own (==_refl tid) in
      (
        k2,
        rw (signed, not_any, look_blocked.0, free, look_own.0, same) refl,
        refl,
        refl,
        refl,
        look_own.1,
      )

  refuse_absent :
      with_tid k tid bs ≡ [] → (k.tcb k.current).tid ≢ tid → with_tid k tid rs ≡ [] → Refused tid k
  unfolding sys_yield yield_to
  refuse_absent free other absent = (
    k3,
    rw
        (
          signed,
          not_any,
          look_blocked.0,
          free,
          look_own.0,
          ne→==-false (k.tcb k.current).tid tid other,
          look_runnable.0,
          absent,
        )
        refl,
    refl,
    refl,
    refl,
    look_runnable.1,
  )

  -- For a tid below 2 ^ 31, with the queues in order and no mutex held or waited for: when a
  -- thread with the tid is in the blocked queue, the caller has it, or no thread of the
  -- runnable queue has it, sys_yield returns -1, the queues, the threads and the running one
  -- are as before, and no mutex is held.
  pub sys_yield-refuses :
      (found_blocked : List Ptr)
      → with_tid k tid bs ≡ found_blocked
      → (found_blocked ≢ []) ⊎ (((k.tcb k.current).tid ≡ tid) ⊎ (with_tid k tid rs ≡ []))
      → Refused tid k
  sys_yield-refuses (y ∷ ws) e why = refuse_blocked y ws e
  sys_yield-refuses [] e (inl ne) = absurd (ne refl)
  sys_yield-refuses [] e (inr (inl own)) = refuse_own e own
  sys_yield-refuses [] e (inr (inr absent)) = elim (Bool-cases ((k.tcb k.current).tid == tid)) [
    | inl own ↦ refuse_own e (ground arith)
    | inr other ↦ refuse_absent e (ground arith) absent
  ]
