-- ===== src/Vanish/Leave.antt =====
-- `vanish` in the only thread of a process, while a thread of its parent waits.
use p.Base.{
  ℕ, ◌+◌, ◌≡◌, refl, ◌∙◌, ◌≢◌, not, List, [], ◌∷◌, ◌++◌, arith, ◌==◌, ne→==-false, ==_refl,
  Disjoint, Distinct-middle, has-append, length-append,
}
use p.LinkedList.{Ptr, null, list_delete}
use p.LinkedList.Shape.{IsList}
use p.LinkedList.Delete.{delete-frame}
use p.Kernel.{
  Kernel, Tcb, ThreadState, ok, exit, runnable, deschedule_lock, process_queue_lock, blocked_queue,
  runnable_queue, process_queue, tcb_mutex, set_state, minus_one,
}
use p.Kernel.Queues.{Queues, wake-Queues}
use p.Sched.{schedule}
use p.Sched.Search.{waked-real}
use p.Sched.Switch.{CanSwitch, Switched}
use p.Sched.Schedule.{schedule-Switched}
use p.Sched.Wake.{waked, asleep, due_in}
use p.Thread.Locks.{Quiet, locked, released, change-Quiet, lock-Quiet, unlock-Quiet}
use p.Thread.MakeRunnable.{stage}
use p.Process.{Pcb, World, own_process}
use p.Thread.GiveUp.{waked_same}
use p.Vanish.Steps.{
  woken, wake_up-Quiet, copy-frame, IsSingle, IsAwaited, waiting_in, single-live, reap_peers_self,
  report-wakes, set_state-field,
}
use p.Vanish.{local_threads, copy_list, is_waiting, reap_peers, end_process, ended, sys_vanish}

module _ (w : World) (p : Ptr) (ys zs rs us vs ts ns : List Ptr) (n : Ptr)
    (single : IsSingle w p (ys ++ (w.peer n ∷ zs)) rs us vs) (aw : IsAwaited w ts us vs)
    (q : Quiet w.kernel.mutex []) (found : waiting_in w ts ≡ n ∷ ns)
    (differ : w.peer n ≢ w.kernel.current) where
  abbrev k : Kernel
  k = w.kernel

  abbrev own : Pcb
  own = w.pcb (own_process w)

  abbrev own_lock : ℕ
  own_lock = tcb_mutex k.current

  abbrev copied : Kernel
  copied =
      let k1 = locked own_lock k in
      record k1 { store = copy_list local_threads own.threads k1.store }

  abbrev drop_process : Kernel → Kernel
  drop_process a = record a { store = (list_delete process_queue own.all_processes_node a.store).1 }

  abbrev dropped : Kernel
  dropped = stage process_queue_lock drop_process copied

  -- The state in which `vanish` calls `schedule`.
  abbrev left : Kernel
  left = released own_lock (set_state k.current exit (woken (w.peer n) dropped))

  copied-Quiet : Quiet copied.mutex (own_lock ∷ [])
  copied-Quiet = (lock-Quiet own_lock k [] q refl).1

  lists_copied :
      (l : Ptr) (xs : List Ptr) → l ≢ local_threads → IsList k.store l xs → IsList copied.store l xs
  lists_copied l xs ne is = copy-frame local_threads own.threads l k.store xs ne is

  lists_dropped :
      (l : Ptr) (xs : List Ptr)
      → l ≢ local_threads
      → l ≢ process_queue
      → Disjoint xs (us ++ (own.all_processes_node ∷ vs))
      → IsList k.store l xs
      → IsList dropped.store l xs
  lists_dropped l xs nl np apart is =
      delete-frame copied.store process_queue own.all_processes_node us vs l xs (omega arith)
        (lists_copied process_queue (us ++ (own.all_processes_node ∷ vs)) (omega arith)
          single.listed)
        np apart (lists_copied l xs nl is)

  peers_kept :
      reap_peers
        (λ a. not ((k.tcb (w.peer a)).tid == (k.tcb k.current).tid))
        (copied.store.length local_threads + 1)
        (copied.store.head local_threads)
        copied.store
      ≡ copied.store
  peers_kept =
      let s = single.threads in
      reap_peers_self (λ a. not ((k.tcb (w.peer a)).tid == (k.tcb k.current).tid))
        (copied.store.length local_threads + 1) (copied.store.head local_threads) p copied.store
        (omega (arith, s.length)) s.head s.links.2
        (rw (single.self, ==_refl (k.tcb k.current).tid) refl)

  n_real : n ≢ null
  n_real =
      waked-real k (w.pcb own.parent).threads (λ a. is_waiting (k.tcb (w.peer a)).state) ts n ns
        aw.threads found

  ended_to :
      (end_process (ended w) copied ≡ ok tt (woken (w.peer n) dropped))
      × Quiet (woken (w.peer n) dropped).mutex (own_lock ∷ [])
  unfolding end_process
  ended_to =
      let (e1, q1) =
        change-Quiet process_queue_lock drop_process copied (own_lock ∷ []) copied-Quiet
          (ground arith) refl in
      let (e2, q2) =
        wake_up-Quiet (w.peer n) dropped (own_lock ∷ []) q1 (ground arith) (ground (arith, differ))
          (ground arith) in
      (
        rw (==_refl (own_process w), peers_kept, e1)
            (report-wakes w dropped ts us vs n ns aw refl
                (lists_dropped (w.pcb own.parent).threads ts aw.not_local aw.not_processes aw.apart
                  aw.threads)
                found n_real
              ∙ e2),
        q2,
      )

  sys_vanish-scheduled :
      (k' : Kernel) → schedule minus_one left ≡ ok tt k' → sys_vanish w ≡ ((ended w).pcb, ok tt k')
  unfolding sys_vanish
  sys_vanish-scheduled k' e =
      let (e1, q1) = lock-Quiet own_lock k [] q refl in
      let (e2, q2) = ended_to in
      let (e3, q3) =
        unlock-Quiet own_lock (set_state k.current exit (woken (w.peer n) dropped)) [] q2 in
      rw (single-live w p (ys ++ (w.peer n ∷ zs)) rs us vs single, e1, e2, e3, e) refl

  left-Queues :
      Queues k.store (ys ++ (w.peer n ∷ zs)) rs
      → Queues left.store (ys ++ zs) (rs ++ (w.peer n ∷ []))
  left-Queues queues =
      let there : Queues dropped.store (ys ++ (w.peer n ∷ zs)) rs = record {
        blocked =
            lists_dropped blocked_queue (ys ++ (w.peer n ∷ zs)) (omega arith) (omega arith)
              single.blocked_apart queues.blocked;
        runnable =
            lists_dropped runnable_queue rs (omega arith) (omega arith) single.runnable_apart
              queues.runnable;
        apart = queues.apart;
        small = queues.small;
      } in
      (wake-Queues dropped.store ys (w.peer n) zs rs there).0

  left-CanSwitch :
      CanSwitch k (ys ++ (w.peer n ∷ zs)) rs → CanSwitch left (ys ++ zs) (rs ++ (w.peer n ∷ []))
  left-CanSwitch can = record {
    queues = left-Queues can.queues;
    outside = record {
      real = can.outside.real;
      not_blocked = ground (
        arith,
        can.outside.not_blocked,
        has-append k.current ys (w.peer n ∷ zs),
        has-append k.current ys zs,
      );
      not_runnable =
          ground (arith, can.outside.not_runnable, has-append k.current rs (w.peer n ∷ []), differ);
    };
    room = omega (
      arith,
      can.room,
      length-append ys (w.peer n ∷ zs),
      length-append ys zs,
      length-append rs (w.peer n ∷ []),
    );
    free =
        (unlock-Quiet own_lock (set_state k.current exit (woken (w.peer n) dropped)) []
            ended_to.1).1.calm
          deschedule_lock;
  }

  kept : (a : Ptr) → a ≢ k.current → a ≢ w.peer n → left.tcb a ≡ k.tcb a
  kept a c x = rw (ne→==-false a k.current c, ne→==-false a (w.peer n) x) refl

  field_kept :
      (f : Tcb → ℕ) (a : Ptr)
      → ((t : Tcb) (st : ThreadState) → f (record t { state = st }) ≡ f t)
      → f (left.tcb a) ≡ f (k.tcb a)
  field_kept f a same =
      set_state-field f k.current exit (woken (w.peer n) dropped) a same
      ∙ set_state-field f (w.peer n) runnable dropped a same

  due_kept :
      CanSwitch k (ys ++ (w.peer n ∷ zs)) rs
      → (waked (due_in left) (ys ++ zs) ≡ waked (due_in k) (ys ++ zs))
        × (asleep (due_in left) (ys ++ zs) ≡ asleep (due_in k) (ys ++ zs))
  due_kept can =
      let out = Distinct-middle ys (w.peer n) zs can.queues.blocked.distinct in
      waked_same (due_in left) (due_in k) (ys ++ zs) (λ a h.
        rw
          (kept a (λ e. ground (arith, e, h, (left-CanSwitch can).outside.not_blocked))
            (λ e. ground (arith, e, h, out)))
          refl)

  -- For a process whose only thread is the running one, which is in the process queue and whose
  -- parent has not exited, where n is the first of the parent's threads that wait and is in the
  -- blocked queue between ys and zs, no mutex is held or waited for, the queues are in order,
  -- the running thread is in neither, the process queue shares no node with them nor with the
  -- parent's threads, and the runnable threads, then n's thread and then the sleeper that wakes
  -- (if any) are y and then ws: sys_vanish marks the process as exited and comes to the switch
  -- in which y takes over the processor, the runnable queue is ws, n's thread and the sleeper
  -- have left the blocked queue, and the thread that ran before is in no queue.
  pub sys_vanish-Switched :
      (y : Ptr) (ws : List Ptr)
      → CanSwitch k (ys ++ (w.peer n ∷ zs)) rs
      → (rs ++ (w.peer n ∷ [])) ++ waked (due_in k) (ys ++ zs) ≡ y ∷ ws
      → (k' : Kernel) × (sys_vanish w ≡ ((ended w).pcb, ok tt k'))
        × Switched k k' y (asleep (due_in k) (ys ++ zs)) ws
  sys_vanish-Switched y ws can e =
      let (same, rest) = due_kept can in
      let c = k.current in
      let state : (left.tcb c).state ≡ exit = rw (==_refl c) refl in
      let (k', r, s) =
        schedule-Switched left (ys ++ zs) (rs ++ (w.peer n ∷ [])) y ws (left-CanSwitch can)
          (rw same e) in
      (
        k',
        sys_vanish-scheduled k' r,
        record {
          queues = rw (state, rest) at s.queues;
          current = s.current;
          outside = rw (state, rest) at s.outside;
          cr3 = s.cr3 ∙ field_kept (λ t. t.pd) y (λ t st. refl);
          esp0 = s.esp0 ∙ field_kept (λ t. t.stack_top) y (λ t st. refl);
          interrupts = s.interrupts;
        },
      )
