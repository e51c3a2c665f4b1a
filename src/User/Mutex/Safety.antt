-- ===== src/User/Mutex/Safety.antt =====
-- No two threads are between the two calls.
use p.Base.{ℕ, ◌≡◌, refl, ◌≢◌, true, arith, update}
use p.User.Mutex.{
  Mutex, Pc, Move, System, Step, Steps, pick, here, later, initial, holds, unavailable, mutex_init,
  spinlock_init, unlocked, lock_returns, lock_starts, lock_spins, lock_takes, lock_marks,
  unlock_returns, unlock_starts, unlock_marks, unlock_frees,
}

-- At most one thread holds the spinlock, whose state says whether one does.
pub record IsExclusive (m : Mutex) (pc : ℕ → Pc) : Type 0 where
  pub available : m.status ≢ unavailable
  pub unique : (i j : ℕ) → holds (pc i) ≡ true → holds (pc j) ≡ true → i ≡ j
  pub held : (i : ℕ) → holds (pc i) ≡ true → m.state ≢ unlocked
  pub owner : m.state ≢ unlocked → (i : ℕ) × (holds (pc i) ≡ true)

module _ {m : Mutex} {pc : ℕ → Pc} (inv : IsExclusive m pc) (i : ℕ) where
  open inv use {available, unique, held, owner}

  Move-available : {p p' : Pc} {m' : Mutex} → Move m p m' p' → m'.status ≢ unavailable
  Move-available (lock_marks) = omega arith
  Move-available (unlock_marks) = omega arith
  Move-available (lock_returns e) = absurd (available e)
  Move-available (unlock_returns e) = absurd (available e)
  Move-available mv = available

  Move-unique :
      {p p' : Pc} {m' : Mutex}
      → Move m p m' p'
      → pc i ≡ p
      → (a b : ℕ) → holds (update pc i p' a) ≡ true
      → holds (update pc i p' b) ≡ true
      → a ≡ b
  Move-unique (lock_returns e) at a b ha hb = absurd (available e)
  Move-unique (lock_takes e) at a b ha hb = ground (arith, held a, held b)
  Move-unique mv at a b ha hb = ground (arith, unique a b, unique i b, unique a i)

  Move-held :
      {p p' : Pc} {m' : Mutex}
      → Move m p m' p'
      → pc i ≡ p
      → (a : ℕ) → holds (update pc i p' a) ≡ true
      → m'.state ≢ unlocked
  Move-held (lock_returns e) at a h = absurd (available e)
  Move-held (lock_spins e) at a h = omega arith
  Move-held (lock_takes e) at a h = omega arith
  Move-held unlock_frees at a h = ground (arith, unique a i)
  Move-held mv at a h = ground (arith, held a, held i)

  -- The thread that moves is the owner after its move, when it was before or takes the lock.
  Move-owner :
      {p p' : Pc} {m' : Mutex}
      → Move m p m' p'
      → pc i ≡ p
      → m'.state ≢ unlocked
      → (a : ℕ) × (holds (update pc i p' a) ≡ true)
  Move-owner (lock_returns e) at h = absurd (available e)
  Move-owner (unlock_returns e) at h = absurd (available e)
  Move-owner (lock_takes e) at h = (i, ground arith)
  Move-owner lock_marks at h = (i, ground arith)
  Move-owner (unlock_starts e) at h = (i, ground arith)
  Move-owner unlock_marks at h = (i, ground arith)
  Move-owner unlock_frees at h = absurd (h refl)
  Move-owner (lock_spins e) at h = let (j, own) = owner e in (j, ground arith)
  Move-owner (lock_starts e) at h = let (j, own) = owner h in (j, ground arith)

  pub Move-IsExclusive :
      {p' : Pc} {m' : Mutex} → Move m (pc i) m' p' → IsExclusive m' (update pc i p')
  Move-IsExclusive mv = record {
    available = Move-available mv;
    unique = Move-unique mv refl;
    held = Move-held mv refl;
    owner = Move-owner mv refl;
  }

pub Step-IsExclusive :
    {s t : System} → Step s t → IsExclusive s.mutex s.pc → IsExclusive t.mutex t.pc
Step-IsExclusive (pick i mv) inv = Move-IsExclusive inv i mv

pub Steps-IsExclusive :
    {s t : System} → Steps s t → IsExclusive s.mutex s.pc → IsExclusive t.mutex t.pc
Steps-IsExclusive here inv = inv
Steps-IsExclusive (later r st) inv = Step-IsExclusive st (Steps-IsExclusive r inv)

pub initial-IsExclusive : (m : Mutex) → IsExclusive (initial m).mutex (initial m).pc
unfolding mutex_init spinlock_init
initial-IsExclusive m = record {
  available = omega arith;
  unique = λ i j hi hj. cc;
  held = λ i h. cc;
  owner = λ h. absurd (h refl);
}

-- After mutex_init and any number of steps of any threads, in any order, that lock and unlock
-- the mutex, each unlocking only from inside: no two threads are between the end of the loop of
-- mutex_lock and the end of mutex_unlock.
pub mutual_exclusion :
    (m : Mutex) (s : System) (i j : ℕ)
    → Steps (initial m) s
    → holds (s.pc i) ≡ true
    → holds (s.pc j) ≡ true
    → i ≡ j
mutual_exclusion m s i j r hi hj = (Steps-IsExclusive r (initial-IsExclusive m)).unique i j hi hj
