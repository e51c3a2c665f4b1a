-- ===== src/User/Mutex/Progress.antt =====
-- A thread that waits for the mutex can still get it, wherever the other threads stand.
use p.Base.{
  ℕ, ◌≡◌, refl, ◌∙◌, ◌≢◌, true, arith, update, update_self, ◌==◌, Bool-cases, inl, inr, ne→==-false,
}
use p.User.Mutex.{
  Mutex, Pc, Move, System, Steps, pick, here, later, initial, holds, unavailable, unlocked, outside,
  locking, taken, inside, unlocking, freeing, lock_takes, lock_marks, unlock_starts, unlock_marks,
  unlock_frees,
}
use p.User.Mutex.Safety.{Steps-IsExclusive, initial-IsExclusive}

Steps-trans : {s t u : System} → Steps s t → Steps t u → Steps s u
Steps-trans r here = r
Steps-trans r (later q st) = later (Steps-trans r q) st

abbrev after : System → ℕ → Mutex → Pc → System
after s i m p = record { mutex = m; pc = update s.pc i p }

-- A step of thread `i`, which stands at `p`.
one_step :
    (s : System) (i : ℕ) (p : Pc) {m' : Mutex} {p' : Pc}
    → s.pc i ≡ p
    → Move s.mutex p m' p'
    → Steps s (after s i m' p')
one_step s i p e mv = later here (pick i (rw e mv))

-- Steps of thread `j` alone after which the spinlock is free.
record Releases (s : System) (j : ℕ) : Type 0 where
  last : System
  steps : Steps s last
  free : last.mutex.state ≡ unlocked
  others : (a : ℕ) → a ≢ j → last.pc a ≡ s.pc a

Releases-after :
    (s : System) (j : ℕ) (p : Pc) {m' : Mutex} {p' : Pc}
    → s.pc j ≡ p
    → Move s.mutex p m' p'
    → Releases (after s j m' p') j
    → Releases s j
Releases-after s j p {m'} {p'} e mv r = record {
  last = r.last;
  steps = Steps-trans (one_step s j p e mv) r.steps;
  free = r.free;
  others = λ a ne. r.others a ne ∙ rw (ne→==-false a j ne) refl;
}

free_now : (s : System) (j : ℕ) → s.mutex.state ≡ unlocked → Releases s j
free_now s j e = record { last = s; steps = here; free = e; others = λ a ne. refl }

from_freeing : (s : System) (j : ℕ) → s.pc j ≡ freeing → Releases s j
from_freeing s j e =
    Releases-after s j freeing e unlock_frees
      (free_now (after s j (record s.mutex { state = unlocked }) outside) j refl)

from_unlocking : (s : System) (j : ℕ) → s.pc j ≡ unlocking → Releases s j
from_unlocking s j e =
    let m = record s.mutex { status = unlocked } in
    Releases-after s j unlocking e unlock_marks
      (from_freeing (after s j m freeing) j (update_self s.pc j freeing))

from_inside : (s : System) (j : ℕ) → s.mutex.status ≢ unavailable → s.pc j ≡ inside → Releases s j
from_inside s j av e =
    Releases-after s j inside e (unlock_starts av)
      (from_unlocking (after s j s.mutex unlocking) j (update_self s.pc j unlocking))

from_taken : (s : System) (j : ℕ) → s.pc j ≡ taken → Releases s j
from_taken s j e =
    let m = record s.mutex { status = 1 } in
    Releases-after s j taken e lock_marks
      (from_inside (after s j m inside) j (omega arith) (update_self s.pc j inside))

from_holder :
    (s : System) (j : ℕ) (p : Pc)
    → s.mutex.status ≢ unavailable
    → s.pc j ≡ p
    → holds p ≡ true
    → Releases s j
from_holder s j outside av e h = absurd (cc)
from_holder s j locking av e h = absurd (cc)
from_holder s j taken av e h = from_taken s j e
from_holder s j inside av e h = from_inside s j av e
from_holder s j unlocking av e h = from_unlocking s j e
from_holder s j freeing av e h = from_freeing s j e

-- With the spinlock free, two steps take the thread in.
enter :
    (s : System) (i : ℕ)
    → s.mutex.state ≡ unlocked
    → s.pc i ≡ locking
    → (t : System) × Steps s t × (t.pc i ≡ inside)
enter s i free e =
    let m1 = record s.mutex { state = 1 } in
    let s1 = after s i m1 taken in
    let m2 = record m1 { status = 1 } in
    (
      after s1 i m2 inside,
      Steps-trans (one_step s i locking e (lock_takes free))
          (one_step s1 i taken (update_self s.pc i taken) lock_marks),
      update_self s1.pc i inside,
    )

not_locking : (p : Pc) → p ≡ locking → holds p ≢ true
not_locking p e h = cc (rw e at h)

-- After mutex_init and any number of steps of any threads, in any order, that lock and unlock
-- the mutex, each unlocking only from inside: a thread in the loop of mutex_lock can still get
-- the mutex by some further steps.
pub deadlock_freedom :
    (m : Mutex) (s : System) (i : ℕ)
    → Steps (initial m) s
    → s.pc i ≡ locking
    → (t : System) × Steps s t × (t.pc i ≡ inside)
deadlock_freedom m s i r e =
    let inv = Steps-IsExclusive r (initial-IsExclusive m) in
    elim (Bool-cases (s.mutex.state == unlocked)) [
      | inl free ↦ enter s i (ground arith) e
      | inr busy ↦
          let (j, own) = inv.owner (ground arith) in
          let rel = from_holder s j (s.pc j) inv.available refl own in
          let other : i ≢ j = λ same. not_locking (s.pc j) (rw same at e) own in
          let (t, steps, done) = enter rel.last i rel.free (rel.others i other ∙ e) in
          (t, Steps-trans rel.steps steps, done)
    ]
