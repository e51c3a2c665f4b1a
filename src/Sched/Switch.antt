-- ===== src/Sched/Switch.antt =====
-- The switch to a runnable thread: the first one, or the one with a given id.
use p.Base.{
  ℕ, ◌++◌, length-append, has-append, ◌+◌, ◌<◌, ◌^◌, ◌≡◌, refl, sym, ap, ◌∙◌, ◌≢◌, true, false,
  List, [], ◌∷◌, arith, ◌==◌, length, ◌&&◌, ne→==-false,
}
use p.LinkedList.{Ptr, null, list_delete, list_delete_first}
use p.Kernel.{Kernel, ThreadState, init, ok, runnable_queue, deschedule_lock, minus_one}
use p.Kernel.Queues.{Queues, Outside, take-Queues}
use p.Sched.{
  has_tid, list_search_tid, enter_thread, pick, switch_to, context_switch, prepare_init_thread,
}
use p.Sched.Wake.{waked}
use p.Sched.Search.{find_thread-first, waked-real}
use p.Sched.Park.{blocked_after, runnable_after, park-Parked, Outside-after}

-- `pick` takes thread `x` out of the runnable queue.
abbrev pub Picks : ℕ → Kernel → Ptr → Type 0
Picks tid k x = pick tid k ≡ ok x (record k { store = (list_delete runnable_queue x k.store).1 })

pub pick-first :
    (k : Kernel) (bs : List Ptr) (x : Ptr) (xs : List Ptr)
    → Queues k.store bs (x ∷ xs)
    → Picks minus_one k x
unfolding pick list_delete_first
pick-first k bs x xs q =
    let (got, q', out) = take-Queues k.store bs [] x xs q in
    rw (q.runnable.head, got, ne→==-false x null out.real) refl

pub pick-tid :
    (tid : ℕ) (k : Kernel) (bs rs : List Ptr) (x : Ptr) (ws : List Ptr)
    → tid ≢ minus_one
    → Queues k.store bs rs
    → waked (λ n. has_tid tid (k.tcb n)) rs ≡ x ∷ ws
    → Picks tid k x
unfolding pick list_search_tid
pick-tid tid k bs rs x ws ne q e =
    let real = waked-real k runnable_queue (λ n. has_tid tid (k.tcb n)) rs x ws q.runnable e in
    let at = find_thread-first (has_tid tid) k runnable_queue rs q.runnable in
    rw (ne→==-false tid minus_one ne, at, e, ne→==-false x null real) refl

-- The processor's state behind the switch to a thread `x`.
pub record Switched (k k' : Kernel) (x : Ptr) (bs rs : List Ptr) : Type 0 where
  pub queues : Queues k'.store bs rs
  pub current : k'.current ≡ x
  pub outside : Outside x bs rs
  pub cr3 : k'.cr3 ≡ (k.tcb x).pd
  pub esp0 : k'.esp0 ≡ (k.tcb x).stack_top
  pub interrupts : k'.interrupts ≡ true

abbrev switched : ThreadState → Ptr → Kernel → Kernel
switched st x k =
    record (enter_thread st x
      (record k { cr3 = (k.tcb x).pd; esp0 = (k.tcb x).stack_top; current = x })) {
        interrupts = true;
      }

switched-Switched :
    (k : Kernel) (x : Ptr) (bs rs : List Ptr) (st : ThreadState)
    → Queues k.store bs rs
    → Outside x bs rs
    → Switched k (switched st x k) x bs rs
unfolding prepare_init_thread
switched-Switched k x bs rs init q out = record {
  queues = q;
  current = refl;
  outside = out;
  cr3 = refl;
  esp0 = refl;
  interrupts = refl;
}
switched-Switched k x bs rs _ q out = record {
  queues = q;
  current = refl;
  outside = out;
  cr3 = refl;
  esp0 = refl;
  interrupts = refl;
}

-- What a thread needs to give up the processor.
pub record CanSwitch (k : Kernel) (bs rs : List Ptr) : Type 0 where
  pub queues : Queues k.store bs rs
  pub outside : Outside k.current bs rs
  pub room : length bs + length rs + 3 < 2 ^ 32
  pub free : (k.mutex deschedule_lock).waiters ≡ 0

module _ (k : Kernel) (bs ys : List Ptr) (x : Ptr) (zs : List Ptr) where
  not-idle :
      Queues k.store bs (ys ++ (x ∷ zs))
      → (((k.tcb k.current).tid == 1) && (k.store.length runnable_queue == 0)) ≡ false
  not-idle q = ground (
    arith,
    ne→==-false (k.store.length runnable_queue) 0
        (omega (arith, q.runnable.length, length-append ys (x ∷ zs))),
  )

  Outside-rest :
      Outside k.current bs (ys ++ (x ∷ zs)) → Outside k.current bs (ys ++ zs) × (x ≢ k.current)
  Outside-rest o = (
    record {
      real = o.real;
      not_blocked = o.not_blocked;
      not_runnable =
          ground
            (arith, o.not_runnable, has-append k.current ys (x ∷ zs), has-append k.current ys zs);
    },
    λ e. ground (arith, o.not_runnable, e, has-append k.current ys (x ∷ zs)),
  )

  switch_to-Switched :
      (tid : ℕ)
      → Picks tid k x
      → CanSwitch k bs (ys ++ (x ∷ zs))
      → (k' : Kernel) × (switch_to tid k ≡ ok tt k')
        × Switched k k' x
            (blocked_after (k.tcb k.current).state k.current bs)
            (runnable_after (k.tcb k.current).state k.current (ys ++ zs))
  unfolding switch_to context_switch
  switch_to-Switched tid picks can =
      let c = k.current in
      let st = (k.tcb c).state in
      let (rest, ne) = Outside-rest can.outside in
      let (got, q, out) = take-Queues k.store bs ys x zs can.queues in
      let k1 = record k { store = (list_delete runnable_queue x k.store).1 } in
      let room : length bs + length (ys ++ zs) + 3 < 2 ^ 32 =
        omega (arith, can.room, length-append ys (x ∷ zs), length-append ys zs) in
      let (k2, e, p) = park-Parked c st k1 bs (ys ++ zs) q rest room can.free in
      let w =
        switched-Switched k2 x (blocked_after st c bs) (runnable_after st c (ys ++ zs))
          (k2.tcb x).state p.queues (Outside-after st x c bs (ys ++ zs) ne out) in
      (
        switched (k2.tcb x).state x k2,
        rw (not-idle can.queues, picks, e) refl,
        record {
          queues = w.queues;
          current = w.current;
          outside = w.outside;
          cr3 = w.cr3 ∙ ap (λ f. (f x).pd) p.threads;
          esp0 = w.esp0 ∙ ap (λ f. (f x).stack_top) p.threads;
          interrupts = w.interrupts;
        },
      )

  -- The same, with the three things that are computed given by equations.
  pub switch_from :
      (tid : ℕ) (rs : List Ptr) (c : Ptr) (st : ThreadState)
      → Picks tid k x
      → CanSwitch k bs rs
      → rs ≡ ys ++ (x ∷ zs)
      → k.current ≡ c
      → (k.tcb c).state ≡ st
      → (k' : Kernel) × (switch_to tid k ≡ ok tt k')
        × Switched k k' x (blocked_after st c bs) (runnable_after st c (ys ++ zs))
  switch_from tid rs c st picks can e ec es =
      rw (sym es, sym ec) (switch_to-Switched tid picks (rw e at can))
