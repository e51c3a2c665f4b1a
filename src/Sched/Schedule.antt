-- ===== src/Sched/Schedule.antt =====
-- `schedule` as a whole: a sleeper wakes, and the first runnable thread takes over.
use p.Base.{
  ℕ, ◌+◌, ◌≡◌, refl, ap, ◌∙◌, ◌≢◌, false, List, [], ◌∷◌, ◌++◌, arith, has, length, Bool, Bool-cases,
  inl, inr, some, has-append, length-append, ne→==-false,
}
use p.LinkedList.{Ptr}
use p.Kernel.{Kernel, Tcb, ok, minus_one}
use p.Sched.{has_tid, switch_to, schedule, wake_sleepers}
use p.Sched.Wake.{waked, awake, asleep, due_in, Woken, wake_sleepers-Woken}
use p.Sched.Park.{blocked_after, runnable_after}
use p.Sched.Search.{waked-split}
use p.Sched.Switch.{CanSwitch, Switched, Picks, pick-first, pick-tid, switch_from}

-- The sleeping threads that wake and those that do not are the blocked ones.
length-asleep :
    (due : Ptr → Bool) (bs : List Ptr) → length (asleep due bs) + length (waked due bs) ≡ length bs
length-asleep due [] = refl
length-asleep due (x ∷ xs) = ground (arith, length-asleep due xs)

not_asleep :
    (due : Ptr → Bool) (c : Ptr) (bs : List Ptr)
    → has c bs ≡ false
    → (has c (asleep due bs) ≡ false) × (has c (waked due bs) ≡ false)
not_asleep due c [] h = (refl, refl)
not_asleep due c (x ∷ xs) h =
    let (head, tail) : (c ≢ x) × (has c xs ≡ false) =
      (λ e. ground (arith, h, e), ground (arith, h)) in
    let (a, b) = not_asleep due c xs tail in
    elim (Bool-cases (due x)) [
      | inl d ↦ (rw d tail, rw d (rw (ne→==-false c x head) refl))
      | inr d ↦ (rw (d, ne→==-false c x head) a, rw d b)
    ]

Woken-CanSwitch :
    (k k' : Kernel) (bs rs : List Ptr)
    → CanSwitch k bs rs
    → Woken k k' bs rs
    → CanSwitch k' (asleep (due_in k) bs) (rs ++ waked (due_in k) bs)
Woken-CanSwitch k k' bs rs can w =
    let (a, b) = not_asleep (due_in k) k.current bs can.outside.not_blocked in
    record {
      queues = w.queues;
      outside = rw w.current (record {
        real = can.outside.real;
        not_blocked = a;
        not_runnable =
            has-append k.current rs (waked (due_in k) bs)
            ∙ ground (arith, b, can.outside.not_runnable);
      });
      room =
          omega
            (arith, can.room, length-asleep (due_in k) bs, length-append rs (waked (due_in k) bs));
      free = rw w.mutex can.free;
    }

Woken-field :
    {A : Type 0} (f : Tcb → A)
    → ((t : Tcb) → f (awake t) ≡ f t)
    → (k k' : Kernel) (bs rs : List Ptr) → Woken k k' bs rs
    → (q : Ptr) → f (k'.tcb q) ≡ f (k.tcb q)
Woken-field f h k k' bs rs w q = elim (Bool-cases (has q (waked (due_in k) bs))) [
  | inl e ↦ ap f (w.ready q e) ∙ h (k.tcb q)
  | inr e ↦ ap f (w.others q e)
]

pub schedule_woken :
    (tid : ℕ) (k k1 : Kernel)
    → wake_sleepers (record k { interrupts = false }) ≡ some k1
    → schedule tid k ≡ switch_to tid k1
unfolding schedule
schedule_woken tid k k1 e = rw (schedule, e) refl

module _ (tid : ℕ) (k : Kernel) (bs rs ys : List Ptr) (x : Ptr) (zs : List Ptr)
    (can : CanSwitch k bs rs) (e : rs ++ waked (due_in k) bs ≡ ys ++ (x ∷ zs)) where
  abbrev pub Scheduled : Kernel → Type 0
  Scheduled k' =
      Switched k k' x (blocked_after (k.tcb k.current).state k.current (asleep (due_in k) bs))
        (runnable_after (k.tcb k.current).state k.current (ys ++ zs))

  Woken-Scheduled :
      (k1 : Kernel)
      → Woken k k1 bs rs
      → Picks tid k1 x
      → (k' : Kernel) × (switch_to tid k1 ≡ ok tt k') × Scheduled k'
  Woken-Scheduled k1 w picks =
      let c = k.current in
      let t : k1.tcb c ≡ k.tcb c =
        w.others c (not_asleep (due_in k) c bs can.outside.not_blocked).1 in
      let (k2, r2, s) =
        switch_from k1 (asleep (due_in k) bs) ys x zs tid (rs ++ waked (due_in k) bs) c
          (k.tcb c).state picks (Woken-CanSwitch k k1 bs rs can w) e w.current
          (ap (λ t. t.state) t) in
      (
        k2,
        r2,
        record {
          queues = s.queues;
          current = s.current;
          outside = s.outside;
          cr3 = s.cr3 ∙ Woken-field (λ t. t.pd) (λ t. refl) k k1 bs rs w x;
          esp0 = s.esp0 ∙ Woken-field (λ t. t.stack_top) (λ t. refl) k k1 bs rs w x;
          interrupts = s.interrupts;
        },
      )

-- The state in which the loop over the sleeping threads starts.
abbrev quieted : Kernel → Kernel
quieted k = record k { interrupts = false }

quieted-CanSwitch :
    (k : Kernel) (bs rs : List Ptr) → CanSwitch k bs rs → CanSwitch (quieted k) bs rs
quieted-CanSwitch k bs rs can = record {
  queues = can.queues;
  outside = can.outside;
  room = can.room;
  free = can.free;
}

quieted-Switched :
    (k k' : Kernel) (x : Ptr) (bs rs : List Ptr)
    → Switched (quieted k) k' x bs rs
    → Switched k k' x bs rs
quieted-Switched k k' x bs rs s = record {
  queues = s.queues;
  current = s.current;
  outside = s.outside;
  cr3 = s.cr3;
  esp0 = s.esp0;
  interrupts = s.interrupts;
}

-- When the blocked and the runnable queue are in order, the running thread is in neither, the
-- deschedule mutex has no waiter, the queues are shorter than 2 ^ 32 - 3 together, and the
-- runnable threads followed by the sleeper that wakes (if any) are x and then xs: schedule(-1)
-- returns, the processor runs x with its page directory and kernel stack loaded and interrupts
-- enabled, x is in no queue, and the thread that ran before is at the end of the queue that its
-- state asks for (none for an exited thread), all other threads keeping their order.
pub schedule-Switched :
    (k : Kernel) (bs rs : List Ptr) (x : Ptr) (xs : List Ptr)
    → CanSwitch k bs rs
    → rs ++ waked (due_in k) bs ≡ x ∷ xs
    → (k' : Kernel) × (schedule minus_one k ≡ ok tt k')
      × Switched k k' x
          (blocked_after (k.tcb k.current).state k.current (asleep (due_in k) bs))
          (runnable_after (k.tcb k.current).state k.current xs)
schedule-Switched k bs rs x xs can e =
    let can0 = quieted-CanSwitch k bs rs can in
    let (k1, r, w) = wake_sleepers-Woken (quieted k) bs rs can.queues in
    let picks = pick-first k1 (asleep (due_in k) bs) x xs (rw e at w.queues) in
    let (k2, r2, s) = Woken-Scheduled minus_one (quieted k) bs rs [] x xs can0 e k1 w picks in
    (k2, schedule_woken minus_one k k1 r ∙ r2, quieted-Switched k k2 x _ _ s)

-- Tests that a woken thread passes as it did before.
waked_tid :
    (tid : ℕ) (k k1 : Kernel) (bs rs : List Ptr)
    → Woken k k1 bs rs
    → (xs : List Ptr)
    → waked (λ n. has_tid tid (k1.tcb n)) xs ≡ waked (λ n. has_tid tid (k.tcb n)) xs
waked_tid tid k k1 bs rs w [] = refl
waked_tid tid k k1 bs rs w (x ∷ xs) =
    rw (Woken-field (λ t. t.tid) (λ t. refl) k k1 bs rs w x, waked_tid tid k k1 bs rs w xs) refl

-- For a tid other than -1, with the blocked and the runnable queue in order, the running thread
-- in neither, the deschedule mutex without a waiter and the queues shorter than 2 ^ 32 - 3
-- together, where x is the first of the runnable threads followed by the sleeper that wakes (if
-- any) that has the tid: schedule(tid) returns, the processor runs x with its page directory
-- and kernel stack loaded and interrupts enabled, x is in no queue, and the thread that ran
-- before is at the end of the queue that its state asks for (none for an exited thread), all
-- other threads keeping their order.
pub schedule_tid-Switched :
    (tid : ℕ) (k : Kernel) (bs rs : List Ptr) (x : Ptr) (ws : List Ptr)
    → tid ≢ minus_one
    → CanSwitch k bs rs
    → waked (λ n. has_tid tid (k.tcb n)) (rs ++ waked (due_in k) bs) ≡ x ∷ ws
    → (k' : Kernel) × (schedule tid k ≡ ok tt k')
      × Switched k k' x (blocked_after (k.tcb k.current).state k.current (asleep (due_in k) bs)) (
          runnable_after
            (k.tcb k.current).state
            k.current
            (asleep (λ n. has_tid tid (k.tcb n)) (rs ++ waked (due_in k) bs)))
schedule_tid-Switched tid k bs rs x ws ne can found_x =
    let all = rs ++ waked (due_in k) bs in
    let (ys, zs, e, rest) = waked-split (λ n. has_tid tid (k.tcb n)) all x ws found_x in
    let can0 = quieted-CanSwitch k bs rs can in
    let (k1, r, w) = wake_sleepers-Woken (quieted k) bs rs can.queues in
    let picks =
      pick-tid tid k1 (asleep (due_in k) bs) all x ws ne w.queues
        (waked_tid tid (quieted k) k1 bs rs w all ∙ found_x) in
    let (k2, r2, s) = Woken-Scheduled tid (quieted k) bs rs ys x zs can0 e k1 w picks in
    (k2, schedule_woken tid k k1 r ∙ r2, rw rest (quieted-Switched k k2 x _ _ s))
