-- ===== src/User/RwLock/Phases.antt =====
-- The phases of a readers/writer lock, and how it goes from one to the next.
use p.Base.{
  ℕ, zero, suc, ◌+◌, ◌-◌, ◌%◌, ◌^◌, ◌<◌, ◌≡◌, refl, arith, none, some, if◌then◌else◌, ◌==◌, ◌&&◌,
  ltb, true, ne→==-false,
}
use p.User.RwLock.{
  RwLock, LockType, read, write, rwlock_lock, rwlock_unlock, rwlock_downgrade, sem_wait, sem_signal,
}

-- The lock with `n` readers inside, none of them a writer before; the lock with a writer inside; and
-- the lock that a writer has left.
abbrev pub reading : ℕ → RwLock
reading n = record {
  readcnt = n;
  writecnt = 0;
  rcnt_mutex = 1;
  wcnt_mutex = 1;
  gen_mutex = 1;
  w = if n == 0 then 1 else 0;
  r = 1;
}

abbrev pub writing : RwLock
writing = record (reading 0) { writecnt = 1; w = 0; r = 0 }

abbrev pub stuck : RwLock
stuck = record (reading 0) { w = 0 }

pub read-reading : (n : ℕ) → n + 1 < 2 ^ 31 → rwlock_lock read (reading n) ≡ some (reading (n + 1))
unfolding rwlock_lock sem_wait sem_signal
read-reading zero h = refl
read-reading (suc n) h =
    let inc : (suc n + 1) % 2 ^ 32 ≡ suc n + 1 = omega arith in
    rw
      (
        inc,
        ne→==-false (suc n + 1) 1 (omega arith),
        ne→==-false (suc n + 1) 0 (omega arith),
        ne→==-false (suc n) 0 (omega arith),
      )
      refl

pub unlock-reading : (n : ℕ) → n + 1 < 2 ^ 31 → rwlock_unlock (reading (n + 1)) ≡ some (reading n)
unfolding rwlock_unlock sem_wait sem_signal
unlock-reading zero h = refl
unlock-reading (suc n) h =
    let dec : (suc n + 1 + 2 ^ 32 - 1) % 2 ^ 32 ≡ suc n = omega arith in
    let positive : (ltb 0 (suc n + 1) && ltb (suc n + 1) (2 ^ 31)) ≡ true = ground arith in
    rw (positive, dec, ne→==-false (suc n) 0 (omega arith), ne→==-false (suc n + 1) 0 (omega arith))
      refl

pub write-reading : (n : ℕ) → 0 < n → rwlock_lock write (reading n) ≡ none
unfolding rwlock_lock sem_wait sem_signal
write-reading n h = rw (ne→==-false n 0 (omega arith)) refl

pub write-free : rwlock_lock write (reading 0) ≡ some writing
unfolding rwlock_lock sem_wait sem_signal
write-free = refl

pub lock-writing : (t : LockType) → rwlock_lock t writing ≡ none
unfolding rwlock_lock sem_wait sem_signal
lock-writing read = refl
lock-writing write = refl

pub unlock-writing : rwlock_unlock writing ≡ some stuck
unfolding rwlock_unlock sem_wait sem_signal
unlock-writing = refl

pub downgrade-writing : rwlock_downgrade writing ≡ some (reading 1)
unfolding rwlock_downgrade sem_wait sem_signal
downgrade-writing = refl

pub lock-stuck : (t : LockType) → rwlock_lock t stuck ≡ none
unfolding rwlock_lock sem_wait sem_signal
lock-stuck read = refl
lock-stuck write = refl
