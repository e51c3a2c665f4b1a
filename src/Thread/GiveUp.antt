-- ===== src/Thread/GiveUp.antt =====
-- The calls by which a thread gives up the processor: `sleep` and `deschedule`.
use p.Base.{
  ℕ, ◌<◌, ◌^◌, ◌≡◌, refl, sym, ap, ◌∙◌, ◌≢◌, true, false, Bool, List, [], ◌∷◌, ◌++◌, arith, ◌==◌,
  has, some, Bool-cases, inl, inr, ne→==-false, update,
}
use p.LinkedList.{Ptr}
use p.Kernel.{
  Kernel, Tcb, ThreadState, ok, sleeping, blocked, deschedule_lock, tcb_mutex, set_state, minus_one,
}
use p.Sched.{schedule}
use p.Sched.Wake.{waked, asleep, due_in}
use p.Sched.Park.{blocked_after, runnable_after}
use p.Sched.Switch.{CanSwitch, Switched}
use p.Sched.Schedule.{schedule-Switched}
use p.Thread.{sys_sleep, sys_deschedule, fall_asleep, change, negative}
use p.Thread.Locks.{Quiet, locked, released, change-Quiet, lock-Quiet}

-- Two tests that agree on a list part it in the same way.
pub waked_same :
    (due due' : Ptr → Bool) (bs : List Ptr)
    → ((a : Ptr) → has a bs ≡ true → due a ≡ due' a)
    → (waked due bs ≡ waked due' bs) × (asleep due bs ≡ asleep due' bs)
waked_same due due' [] h = (refl, refl)
waked_same due due' (x ∷ xs) h =
    let (a, b) = waked_same due due' xs (λ a e. h a (ground (arith, e))) in
    let here : due x ≡ due' x = h x (ground arith) in (rw (here, a) refl, rw (here, b) refl)

-- `k1` is `k` with the running thread's control block replaced by `t`, in the state `st`.
pub record Changed (k k1 : Kernel) (t : Tcb) (st : ThreadState) : Type 0 where
  pub store : k1.store ≡ k.store
  pub current : k1.current ≡ k.current
  pub ticks : k1.ticks ≡ k.ticks
  pub threads : k1.tcb ≡ update k.tcb k.current t
  pub state : t.state ≡ st
  pub pd : t.pd ≡ (k.tcb k.current).pd
  pub stack_top : t.stack_top ≡ (k.tcb k.current).stack_top
  pub calm : (k1.mutex deschedule_lock).waiters ≡ 0

others_kept :
    (k : Kernel) (t : Tcb) (a : Ptr) → a ≢ k.current → update k.tcb k.current t a ≡ k.tcb a
others_kept k t a ne = rw (ne→==-false a k.current ne) refl

field_kept :
    (f : Tcb → ℕ) (k : Kernel) (t : Tcb) (a : Ptr)
    → f t ≡ f (k.tcb k.current)
    → f (update k.tcb k.current t a) ≡ f (k.tcb a)
field_kept f k t a e = elim (Bool-cases (a == k.current)) [
  | inl here ↦ rw here (e ∙ ap (λ q. f (k.tcb q)) (ground arith))
  | inr other ↦ rw other refl
]

Changed-due :
    (k k1 : Kernel) (t : Tcb) (st : ThreadState) (bs : List Ptr)
    → Changed k k1 t st
    → has k.current bs ≡ false
    → (waked (due_in k1) bs ≡ waked (due_in k) bs) × (asleep (due_in k1) bs ≡ asleep (due_in k) bs)
Changed-due k k1 t st bs c out =
    waked_same (due_in k1) (due_in k) bs
      (λ a h. rw (c.ticks, c.threads, others_kept k t a (λ e. ground (arith, h, out, e))) refl)

Changed-CanSwitch :
    (k k1 : Kernel) (t : Tcb) (st : ThreadState) (bs rs : List Ptr)
    → Changed k k1 t st
    → CanSwitch k bs rs
    → CanSwitch k1 bs rs
Changed-CanSwitch k k1 t st bs rs c can = record {
  queues = rw c.store can.queues;
  outside = rw c.current can.outside;
  room = can.room;
  free = c.calm;
}

pub give_up :
    (k k1 : Kernel) (t : Tcb) (st : ThreadState) (bs rs : List Ptr) (x : Ptr) (xs : List Ptr)
    → Changed k k1 t st
    → CanSwitch k bs rs
    → rs ++ waked (due_in k) bs ≡ x ∷ xs
    → (k' : Kernel) × (schedule minus_one k1 ≡ ok tt k')
      × Switched k k' x
          (blocked_after st k.current (asleep (due_in k) bs))
          (runnable_after st k.current xs)
give_up k k1 t st bs rs x xs c can e =
    let (same, rest) = Changed-due k k1 t st bs c can.outside.not_blocked in
    let state : (k1.tcb k1.current).state ≡ st =
      rw (c.threads, c.current) (ground (arith, c.state)) in
    let (k', r, s) =
      schedule-Switched k1 bs rs x xs (Changed-CanSwitch k k1 t st bs rs c can) (rw same e) in
    (
      k',
      r,
      record {
        queues = rw (sym state, sym c.current, sym rest) s.queues;
        current = s.current;
        outside = rw (sym state, sym c.current, sym rest) s.outside;
        cr3 = s.cr3 ∙ (rw c.threads (field_kept (λ t. t.pd) k t x c.pd));
        esp0 = s.esp0 ∙ (rw c.threads (field_kept (λ t. t.stack_top) k t x c.stack_top));
        interrupts = s.interrupts;
      },
    )

-- The state in which `sys_sleep` calls `schedule`.
abbrev slept : ℕ → Kernel → Kernel
slept ticks k = released (tcb_mutex k.current) (fall_asleep ticks (locked (tcb_mutex k.current) k))

sys_sleep-scheduled :
    (ticks : ℕ) (k k' : Kernel)
    → 0 < ticks
    → ticks < 2 ^ 31
    → Quiet k.mutex []
    → schedule minus_one (slept ticks k) ≡ ok tt k'
    → sys_sleep ticks k ≡ ok 0 k'
unfolding sys_sleep
sys_sleep-scheduled ticks k k' pos small q e =
    let (r, q1) = change-Quiet (tcb_mutex k.current) (fall_asleep ticks) k [] q refl refl in
    let signed : negative ticks ≡ false = ground arith in
    rw (signed, ne→==-false ticks 0 (omega arith), r, e) refl

-- For a positive number of ticks below 2 ^ 31, with the queues in order, the running thread in
-- neither, no mutex held or waited for, the queues shorter than 2 ^ 32 - 3 together, and the
-- runnable threads followed by the sleeper that wakes (if any) being x and then xs: sys_sleep
-- comes to the switch in which x takes over the processor, the runnable queue is xs, the caller
-- is the last of the blocked queue, and the result is 0.
pub sys_sleep-Switched :
    (ticks : ℕ) (k : Kernel) (bs rs : List Ptr) (x : Ptr) (xs : List Ptr)
    → 0 < ticks
    → ticks < 2 ^ 31
    → Quiet k.mutex []
    → CanSwitch k bs rs
    → rs ++ waked (due_in k) bs ≡ x ∷ xs
    → (k' : Kernel) × (sys_sleep ticks k ≡ ok 0 k')
      × Switched k k' x (asleep (due_in k) bs ++ (k.current ∷ [])) xs
sys_sleep-Switched ticks k bs rs x xs pos small q can e =
    let c = k.current in
    let t = record (k.tcb c) { duration = ticks; start_ticks = k.ticks; state = sleeping } in
    let (r, q1) = change-Quiet (tcb_mutex c) (fall_asleep ticks) k [] q refl refl in
    let (k', e', s) =
      give_up k (slept ticks k) t sleeping bs rs x xs
        (record {
          store = refl;
          current = refl;
          ticks = refl;
          threads = refl;
          state = refl;
          pd = refl;
          stack_top = refl;
          calm = q1.calm deschedule_lock;
        })
        can e in
    (k', sys_sleep-scheduled ticks k k' pos small q e', s)

-- The state in which `sys_deschedule` calls `schedule`.
abbrev descheduled : Kernel → Kernel
descheduled k =
    let k1 = locked deschedule_lock k in
    let l = tcb_mutex k.current in released l (set_state k.current blocked (locked l k1))

descheduled-Quiet :
    (k : Kernel)
    → Quiet k.mutex []
    → (change (tcb_mutex k.current) (set_state k.current blocked) (locked deschedule_lock k)
        ≡ ok tt (descheduled k))
      × Quiet (descheduled k).mutex (deschedule_lock ∷ [])
descheduled-Quiet k q =
    let (r, q1) = lock-Quiet deschedule_lock k [] q refl in
    change-Quiet (tcb_mutex k.current) (set_state k.current blocked) (locked deschedule_lock k)
      (deschedule_lock ∷ []) q1 (ground arith) refl

sys_deschedule-scheduled :
    (k k' : Kernel)
    → Quiet k.mutex []
    → schedule minus_one (descheduled k) ≡ ok tt k'
    → sys_deschedule (some 0) k ≡ ok 0 k'
unfolding sys_deschedule
sys_deschedule-scheduled k k' q e =
    rw ((lock-Quiet deschedule_lock k [] q refl).0, (descheduled-Quiet k q).0, e) refl

-- With 0 behind a valid pointer, the queues in order, the running thread in neither, no mutex
-- held or waited for, the queues shorter than 2 ^ 32 - 3 together, and the runnable threads
-- followed by the sleeper that wakes (if any) being x and then xs: sys_deschedule comes to the
-- switch in which x takes over the processor, the runnable queue is xs, the caller is the last
-- of the blocked queue, and the result is 0.
sys_deschedule-Switched :
    (k : Kernel) (bs rs : List Ptr) (x : Ptr) (xs : List Ptr)
    → Quiet k.mutex []
    → CanSwitch k bs rs
    → rs ++ waked (due_in k) bs ≡ x ∷ xs
    → (k' : Kernel) × (sys_deschedule (some 0) k ≡ ok 0 k')
      × Switched k k' x (asleep (due_in k) bs ++ (k.current ∷ [])) xs
sys_deschedule-Switched k bs rs x xs q can e =
    let (k', e', s) =
      give_up k (descheduled k) (record (k.tcb k.current) { state = blocked }) blocked bs rs x xs
        (record {
          store = refl;
          current = refl;
          ticks = refl;
          threads = refl;
          state = refl;
          pd = refl;
          stack_top = refl;
          calm = (descheduled-Quiet k q).1.calm deschedule_lock;
        })
        can e in
    (k', sys_deschedule-scheduled k k' q e', s)
