-- ===== src/Sched/Idle.antt =====
-- What `schedule` does where no thread can take over.
use p.Base.{ℕ, ◌≡◌, refl, sym, ap, ◌∙◌, ◌≢◌, false, List, [], ne→==-false}
use p.LinkedList.{Ptr, null, list_delete, list_delete_first}
use p.Kernel.{Kernel, ok, fault, runnable_queue, minus_one}
use p.Kernel.Queues.{Queues}
use p.Sched.{pick, switch_to, schedule}
use p.Sched.Wake.{waked, asleep, due_in, Woken, wake_sleepers-Woken}
use p.Sched.Schedule.{schedule_woken}

-- No thread is runnable, and none wakes.
pub record NoneReady (k : Kernel) (bs : List Ptr) : Type 0 where
  pub queues : Queues k.store bs []
  pub nobody : waked (due_in k) bs ≡ []

switch_to-idle :
    (tid : ℕ) (k : Kernel)
    → (k.tcb k.current).tid ≡ 1
    → k.store.length runnable_queue ≡ 0
    → switch_to tid k ≡ ok tt k
unfolding switch_to
switch_to-idle tid k one e = rw (one, e) refl

switch_to-nobody :
    (k : Kernel)
    → (k.tcb k.current).tid ≢ 1
    → k.store.head runnable_queue ≡ null
    → switch_to minus_one k ≡ fault
unfolding switch_to pick list_delete_first list_delete
switch_to-nobody k other e = rw (ne→==-false (k.tcb k.current).tid 1 other, e) refl

Queues-idle :
    (k k1 : Kernel) (bs : List Ptr)
    → waked (due_in k) bs ≡ []
    → Woken k k1 bs []
    → Queues k1.store (asleep (due_in k) bs) [] × ((k1.tcb k1.current).tid ≡ (k.tcb k.current).tid)
Queues-idle k k1 bs e w = (
  rw e at w.queues,
  ap (λ q. (k1.tcb q).tid) w.current ∙ ap (λ t. t.tid) (w.others k.current (rw e refl)),
)

-- When the queues are in order, none is runnable and no sleeper wakes, schedule in the thread
-- with tid 1 returns to that thread with the queues as they were, and leaves interrupts
-- disabled.
schedule-idle :
    (tid : ℕ) (k : Kernel) (bs : List Ptr)
    → NoneReady k bs
    → (k.tcb k.current).tid ≡ 1
    → (k' : Kernel) × (schedule tid k ≡ ok tt k')
      × (k'.interrupts ≡ false)
      × (k'.current ≡ k.current)
      × Queues k'.store (asleep (due_in k) bs) []
schedule-idle tid k bs i one =
    let k0 = record k { interrupts = false } in
    let (k1, r, w) = wake_sleepers-Woken k0 bs [] i.queues in
    let (q, t) = Queues-idle k0 k1 bs i.nobody w in
    (
      k1,
      schedule_woken tid k k1 r ∙ switch_to-idle tid k1 (t ∙ one) q.runnable.length,
      w.interrupts,
      w.current,
      q,
    )

-- When the queues are in order, none is runnable and no sleeper wakes, schedule(-1) in a thread
-- whose tid is not 1 goes on with a thread computed from NULL.
schedule-nobody :
    (k : Kernel) (bs : List Ptr)
    → NoneReady k bs
    → (k.tcb k.current).tid ≢ 1
    → schedule minus_one k ≡ fault
schedule-nobody k bs i other =
    let k0 = record k { interrupts = false } in
    let (k1, r, w) = wake_sleepers-Woken k0 bs [] i.queues in
    let (q, t) = Queues-idle k0 k1 bs i.nobody w in
    schedule_woken minus_one k k1 r ∙ switch_to-nobody k1 (λ e. other (sym t ∙ e)) q.runnable.head
