-- ===== src/User/Threads/Joins.antt =====
-- `thr_join` and `thr_exit` under every interleaving: one joiner for a thread, and its own status.
use p.Base.{
  ℕ, ◌^◌, ◌<◌, ◌≡◌, refl, ◌≢◌, true, none, some, arith, ◌==◌, update, Bool-cases, inl, inr,
}
use p.LinkedList.{Ptr}
use p.User.Threads.{
  Thread, Stage, running, gone, ended, crashed, found, waiting, reaping, unlisting, returned,
  exiting, vanishing, thread_exit,
}
use p.User.Threads.Steps.{Library, Step, Steps, call, next, here, later}
use p.User.Threads.Moves.{
  target, leaver, has_left, Collected, Effect, idles, leaves, claims, stays, marks, begin-Effect,
  advance-Effect,
}
use p.User.Threads.Owners.{
  AllOwned, Asked, begin-AllOwned, advance-AllOwned, begin-Asked, advance-Asked,
}

-- Whose `joining_tid` a caller of `thr_join` has set, that bears the caller's id; who is about to
-- exit marks a `thread_t` of its own; who is marked is behind that or
-- has vanished; and a status that has been read
-- is that of a thread that has exited.
pub record IsOrderly (owner : Ptr → ℕ) (f : Ptr → Thread) (pc : ℕ → Stage) : Type 0 where
  pub claimant :
      (i p : ℕ) → target (pc i) ≡ some p → ((f p).joining_tid ≡ i) × (0 < i) × (i < 2 ^ 31)
  pub leaving : (i p : ℕ) → leaver (pc i) ≡ some p → owner p ≡ i
  pub marked : (p : ℕ) → (f p).status ≡ thread_exit → has_left (pc (owner p)) ≡ true
  pub collected : (i : ℕ) → Collected f (pc i)

Collected-none : (f : Ptr → Thread) (q : Stage) → target q ≡ none → Collected f q
Collected-none f running e = tt
Collected-none f (vanishing p) e = tt
Collected-none f gone e = tt
Collected-none f ended e = tt
Collected-none f crashed e = tt
Collected-none f (found tid p) e = tt
Collected-none f (waiting tid p) e = tt
Collected-none f (reaping tid p st) e = cc
Collected-none f (unlisting tid p st) e = cc
Collected-none f (returned r st) e = tt
Collected-none f (exiting p st) e = tt

-- What has been read stays true of a thread whose status and result stay.
Collected-kept :
    (f g : Ptr → Thread) (q : Stage)
    → ((p : ℕ)
        → (f p).status ≡ thread_exit
        → ((g p).status ≡ (f p).status) × ((g p).statusp ≡ (f p).statusp))
    → Collected f q
    → Collected g q
Collected-kept f g running keep c = tt
Collected-kept f g (vanishing p) keep c = tt
Collected-kept f g gone keep c = tt
Collected-kept f g ended keep c = tt
Collected-kept f g crashed keep c = tt
Collected-kept f g (found tid p) keep c = tt
Collected-kept f g (waiting tid p) keep c = tt
Collected-kept f g (reaping tid p st) keep c = ground (arith, keep p c.0, c)
Collected-kept f g (unlisting tid p st) keep c = ground (arith, keep p c.0, c)
Collected-kept f g (returned r st) keep c = tt
Collected-kept f g (exiting p st) keep c = tt

module _ {owner : Ptr → ℕ} {f : Ptr → Thread} {pc : ℕ → Stage} (inv : IsOrderly owner f pc) (i : ℕ)
    (lo : 0 < i) (hi : i < 2 ^ 31) where
  open inv use {claimant, leaving, marked, collected}

  Effect-claimant :
      {g : Ptr → Thread} {o n : Stage}
      → Effect owner i f g o n
      → pc i ≡ o
      → (a p : ℕ) → target (update pc i n a) ≡ some p
      → ((g p).joining_tid ≡ a) × (0 < a) × (a < 2 ^ 31)
  Effect-claimant (idles e l s same) at a p h = rw same (ground (arith, claimant a p, e, h))
  Effect-claimant (leaves q st e r own same) at a p h = rw same (ground (arith, claimant a p, e, h))
  Effect-claimant (claims tid q e free to l same c) at a p h =
      rw same (ground (arith, claimant a p, free, to, h))
  Effect-claimant (stays q from to l same c) at a p h =
      rw same (ground (arith, claimant a p, claimant i q, at, from, to, h))
  Effect-claimant (marks q st e z zt zl same) at a p h =
      rw same (ground (arith, claimant a p, zt, h))

  Effect-leaving :
      {g : Ptr → Thread} {o n : Stage}
      → Effect owner i f g o n
      → (a p : ℕ) → leaver (update pc i n a) ≡ some p
      → owner p ≡ a
  Effect-leaving (idles e l s same) a p h = ground (arith, leaving a p, l, h)
  Effect-leaving (leaves q st e r own same) a p h = ground (arith, leaving a p, e, own, h)
  Effect-leaving (claims tid q e free to l same c) a p h = ground (arith, leaving a p, l, h)
  Effect-leaving (stays q from to l same c) a p h = ground (arith, leaving a p, l, h)
  Effect-leaving (marks q st e z zt zl same) a p h = ground (arith, leaving a p, zl, h)

  Effect-marked :
      {g : Ptr → Thread} {o n : Stage}
      → Effect owner i f g o n
      → pc i ≡ o
      → (p : ℕ) → (g p).status ≡ thread_exit
      → has_left (update pc i n (owner p)) ≡ true
  Effect-marked (idles e l s same) at p h = ground (arith, marked p, at, s, rw same at h)
  Effect-marked (leaves q st e r own same) at p h = ground (arith, marked p, at, r, rw same at h)
  Effect-marked (claims tid q e free to l same c) at p h =
      ground (arith, marked p, at, e, rw same at h)
  Effect-marked (stays q from to l same c) at p h = ground (arith, marked p, at, from, rw same at h)
  Effect-marked (marks q st e z zt zl same) at p h =
      ground (arith, marked p, at, e, z, leaving i q, rw same at h)

  -- What `i` itself has read, and what the others have read.
  Effect-Collected_self : {g : Ptr → Thread} {o n : Stage} → Effect owner i f g o n → Collected g n
  Effect-Collected_self {g} {o} {n} (idles e l s same) = Collected-none g n e
  Effect-Collected_self (leaves q st e r own same) = rw e tt
  Effect-Collected_self (claims tid q e free to l same c) = c
  Effect-Collected_self (stays q from to l same c) = c
  Effect-Collected_self {g} {o} {n} (marks q st e z zt zl same) = Collected-none g n zt

  Effect-Collected_other :
      {g : Ptr → Thread} {o n : Stage}
      → Effect owner i f g o n
      → pc i ≡ o
      → (a : ℕ) → Collected g (pc a)
  Effect-Collected_other (idles e l s same) at a = rw same (collected a)
  Effect-Collected_other (leaves q st e r own same) at a = rw same (collected a)
  Effect-Collected_other {g} (claims tid q e free to l same c) at a =
      Collected-kept f g (pc a) (λ p h. rw same (ground arith)) (collected a)
  Effect-Collected_other (stays q from to l same c) at a = rw same (collected a)
  Effect-Collected_other {g} (marks q st e z zt zl same) at a =
      Collected-kept f g (pc a) (λ p h. rw same (ground (arith, marked p h, at, e, leaving i q)))
        (collected a)

  pub Effect-IsOrderly :
      {g : Ptr → Thread} {n : Stage}
      → Effect owner i f g (pc i) n
      → IsOrderly owner g (update pc i n)
  Effect-IsOrderly {g} {n} e = record {
    claimant = Effect-claimant e refl;
    leaving = Effect-leaving e;
    marked = Effect-marked e refl;
    collected = λ a. elim (Bool-cases (a == i)) [
      | inl h ↦ rw h (Effect-Collected_self e)
      | inr h ↦ rw h (Effect-Collected_other e refl a)
    ];
  }

pub record IsRun (owner : Ptr → ℕ) (s : Library) : Type 0 where
  pub owned : AllOwned owner s.task.thread_list
  pub asked : (i : ℕ) → Asked owner (s.pc i)
  pub orderly : IsOrderly owner s.task.threads s.pc

Step-IsRun : {owner : Ptr → ℕ} {s t : Library} → Step s t → IsRun owner s → IsRun owner t
Step-IsRun {owner} {s} (call i c busy lo hi at mem) inv = record {
  owned = begin-AllOwned owner busy i c s.task inv.owned;
  asked = λ a. elim (Bool-cases (a == i)) [
    | inl h ↦ rw h (begin-Asked owner busy i c s.task inv.owned)
    | inr h ↦ rw h (inv.asked a)
  ];
  orderly =
      Effect-IsOrderly inv.orderly i lo hi (rw at (begin-Effect owner busy i c s.task inv.owned));
}
Step-IsRun {owner} {s} (next i busy lo hi mem) inv = record {
  owned = advance-AllOwned owner busy i s.task (s.pc i) inv.owned;
  asked = λ a. elim (Bool-cases (a == i)) [
    | inl h ↦ rw h (advance-Asked owner busy i s.task (s.pc i) (inv.asked i))
    | inr h ↦ rw h (inv.asked a)
  ];
  orderly =
      Effect-IsOrderly inv.orderly i lo hi
        (advance-Effect owner busy i s.task (s.pc i) (inv.orderly.collected i));
}

Steps-IsRun : {owner : Ptr → ℕ} {s t : Library} → Steps s t → IsRun owner s → IsRun owner t
Steps-IsRun here inv = inv
Steps-IsRun (later r st) inv = Step-IsRun st (Steps-IsRun r inv)

-- All threads are in their own code and none has exited; the `thread_t` of a node is that of the
-- thread with the node's id.
pub record Starts (owner : Ptr → ℕ) (s : Library) : Type 0 where
  pub own : AllOwned owner s.task.thread_list
  pub outside : (i : ℕ) → s.pc i ≡ running
  pub alive : (p : ℕ) → (s.task.threads p).status ≢ thread_exit

Starts-IsRun : (owner : Ptr → ℕ) (s : Library) → Starts owner s → IsRun owner s
Starts-IsRun owner s st = record {
  owned = st.own;
  asked = λ i. rw (st.outside i) tt;
  orderly = record {
    claimant = λ i p h. cc (rw (st.outside i) at h);
    leaving = λ i p h. cc (rw (st.outside i) at h);
    marked = λ p h. absurd (st.alive p h);
    collected = λ i. rw (st.outside i) tt;
  };
}

-- Whatever calls of thr_join and thr_exit the threads make, and however they interleave, as
-- long as none reads a freed thread_t or goes on without its stack, and none needs the list's
-- lock when a thread has vanished with it: no two threads have claimed the same thread, from
-- the write of its joining_tid to the removal of its node.
pub joins_once :
    (owner : Ptr → ℕ) (s t : Library) (i j p : ℕ)
    → Starts owner s
    → Steps s t
    → target (t.pc i) ≡ some p
    → target (t.pc j) ≡ some p
    → i ≡ j
joins_once owner s t i j p st run hi hj =
    let inv = Steps-IsRun run (Starts-IsRun owner s st) in
    omega (arith, inv.orderly.claimant i p hi, inv.orderly.claimant j p hj)

-- Whatever calls of thr_join and thr_exit the threads make, and however they interleave, as
-- long as none reads a freed thread_t or goes on without its stack, and none needs the list's
-- lock when a thread has vanished with it: when a caller of thr_join has read a status and has
-- not yet removed the node, the thread that it asked for has left this status, is marked as
-- exited, and has vanished or has only its vanish left to do.
pub join_status :
    (owner : Ptr → ℕ) (s t : Library) (i tid p status : ℕ)
    → Starts owner s
    → Steps s t
    → t.pc i ≡ unlisting tid p status
    → (has_left (t.pc tid) ≡ true)
      × ((t.task.threads p).status ≡ thread_exit)
      × ((t.task.threads p).statusp ≡ status)
join_status owner s t i tid p status st run at =
    let inv = Steps-IsRun run (Starts-IsRun owner s st) in
    let read = (rw at at (inv.orderly.collected i)) in
    let whose = (rw at at (inv.asked i)) in
    ((rw whose at (inv.orderly.marked p read.0)), read.0, read.1)
