-- ===== src/Sched/Wake.antt =====
-- The loop of `schedule` over the sleeping threads wakes the first one that is due, and no other:
-- the node that it has moved ends the loop, since its `next` is NULL.
use p.Base.{
  ℕ, zero, suc, ◌+◌, ◌<◌, ◌≡◌, refl, ◌∙◌, ◌≢◌, true, false, List, [], ◌∷◌, ◌++◌, arith, has, length,
  Bool, Bool-cases, inl, inr, if◌then◌else◌, some, first, ne→==-false,
}
use mathlib.Core.List.{append_assoc, append-nil}
use p.LinkedList.{Ptr, null, list_begin}
use p.LinkedList.Shape.{Links-right}
use p.Kernel.{Kernel, Tcb, runnable, blocked_queue}
use p.Kernel.Queues.{Queues, wake-Queues}
use p.Sched.{is_due, wake_one, wake_loop, wake_sleepers}

-- The specification: the first element that passes the test, and the others.
abbrev pub waked : (Ptr → Bool) → List Ptr → List Ptr
waked due [] = []
waked due (x ∷ xs) = if due x then x ∷ [] else waked due xs

abbrev pub asleep : (Ptr → Bool) → List Ptr → List Ptr
asleep due [] = []
asleep due (x ∷ xs) = if due x then xs else x ∷ asleep due xs

abbrev pub due_in : Kernel → Ptr → Bool
due_in k n = is_due k.ticks (k.tcb n)

abbrev pub awake : Tcb → Tcb
awake t = record t { state = runnable }

-- What is left of the kernel's state as it was: all but the queues and the woken thread's state.
pub record Woken (k k' : Kernel) (bs rs : List Ptr) : Type 0 where
  pub queues : Queues k'.store (asleep (due_in k) bs) (rs ++ waked (due_in k) bs)
  pub current : k'.current ≡ k.current
  pub interrupts : k'.interrupts ≡ k.interrupts
  pub mutex : k'.mutex ≡ k.mutex
  pub others : (q : Ptr) → has q (waked (due_in k) bs) ≡ false → k'.tcb q ≡ k.tcb q
  pub ready : (q : Ptr) → has q (waked (due_in k) bs) ≡ true → k'.tcb q ≡ awake (k.tcb q)

-- The state of the loop at a node behind the threads `pre`, which are not due.
record At (k k' : Kernel) (pre suf rs : List Ptr) : Type 0 where
  queues : Queues k'.store (pre ++ asleep (due_in k) suf) (rs ++ waked (due_in k) suf)
  current : k'.current ≡ k.current
  interrupts : k'.interrupts ≡ k.interrupts
  mutex : k'.mutex ≡ k.mutex
  others : (q : Ptr) → has q (waked (due_in k) suf) ≡ false → k'.tcb q ≡ k.tcb q
  ready : (q : Ptr) → has q (waked (due_in k) suf) ≡ true → k'.tcb q ≡ awake (k.tcb q)

loop_at_null : (fuel : ℕ) (n : Ptr) (k : Kernel) → n ≡ null → wake_loop fuel n k ≡ some k
unfolding wake_loop
loop_at_null zero n k e = rw e refl
loop_at_null (suc fuel) n k e = rw e refl

step_due :
    (fuel : ℕ) (k : Kernel) (x : Ptr)
    → x ≢ null
    → due_in k x ≡ true
    → (wake_one x k).store.next x ≡ null
    → wake_loop (suc fuel) x k ≡ some (wake_one x k)
unfolding wake_loop
step_due fuel k x ne due n =
    rw (ne→==-false x null ne, due)
      (loop_at_null fuel ((wake_one x k).store.next x) (wake_one x k) n)

step_late :
    (fuel : ℕ) (k : Kernel) (x n : Ptr)
    → x ≢ null
    → due_in k x ≡ false
    → k.store.next x ≡ n
    → wake_loop (suc fuel) x k ≡ wake_loop fuel n k
unfolding wake_loop
step_late fuel k x n ne late e = rw (ne→==-false x null ne, late, e) refl

At-late :
    (k k' : Kernel) (pre : List Ptr) (x : Ptr) (suf rs : List Ptr)
    → due_in k x ≡ false
    → At k k' (pre ++ (x ∷ [])) suf rs
    → At k k' pre (x ∷ suf) rs
At-late k k' pre x suf rs late at = record {
  queues = rw late (rw append_assoc at at.queues);
  current = at.current;
  interrupts = at.interrupts;
  mutex = at.mutex;
  others = λ a e. at.others a (rw late at e);
  ready = λ a e. at.ready a (rw late at e);
}

wake_loop-At :
    (fuel : ℕ) (k : Kernel) (pre suf rs : List Ptr)
    → Queues k.store (pre ++ suf) rs
    → length suf < fuel
    → (k' : Kernel) × (wake_loop fuel (first null suf) k ≡ some k') × At k k' pre suf rs
wake_loop-At fuel k pre [] rs q h = (
  k,
  loop_at_null fuel null k refl,
  record {
    queues = rw (append-nil rs) q;
    current = refl;
    interrupts = refl;
    mutex = refl;
    others = λ a e. refl;
    ready = λ a e. cc;
  },
)
wake_loop-At zero k pre (x ∷ suf) rs q h = elim h [ ]
wake_loop-At (suc fuel) k pre (x ∷ suf) rs q h =
    let links = Links-right k.store null null pre (x ∷ suf) q.blocked.links in
    elim (Bool-cases (due_in k x)) [
      | inl due ↦
          let (q', n) = wake-Queues k.store pre x suf rs q in
          (
            wake_one x k,
            step_due fuel k x links.0 due n,
            record {
              queues = rw due q';
              current = refl;
              interrupts = refl;
              mutex = refl;
              others = λ a e. ground (arith, e, due);
              ready = λ a e. ground (arith, e, due);
            },
          )
      | inr late ↦
          let (k', e, at) =
            wake_loop-At fuel k (pre ++ (x ∷ [])) suf rs (rw append_assoc q) (omega arith) in
          (
            k',
            step_late fuel k x (first null suf) links.0 late links.2 ∙ e,
            At-late k k' pre x suf rs late at,
          )
    ]

-- When the blocked and the runnable queue are in order, the loop of schedule over the blocked
-- queue ends. The first sleeping thread whose start_ticks + duration (modulo 2 ^ 32) is below
-- the tick count, and no other, has moved from the blocked queue to the end of the runnable
-- queue and is runnable; all other threads, the running one, the mutexes and the interrupt flag
-- are as before.
pub wake_sleepers-Woken :
    (k : Kernel) (bs rs : List Ptr)
    → Queues k.store bs rs
    → (k' : Kernel) × (wake_sleepers k ≡ some k') × Woken k k' bs rs
unfolding wake_sleepers list_begin
wake_sleepers-Woken k bs rs q =
    let (k', e, at) =
      wake_loop-At (k.store.length blocked_queue + 1) k [] bs rs q
        (omega (arith, q.blocked.length)) in
    (
      k',
      rw q.blocked.head e,
      record {
        queues = at.queues;
        current = at.current;
        interrupts = at.interrupts;
        mutex = at.mutex;
        others = at.others;
        ready = at.ready;
      },
    )
