-- ===== src/Examples/Locking.antt =====
-- Threads that use one mutex, and calls on one readers/writer lock.
use p.Base.{ℕ, ◌≡◌, refl, ◌⊎◌, arith, some, none, update}
use p.User.Mutex.{
  Mutex, System, Steps, here, later, pick, initial, mutex_init, spinlock_init, locking, taken,
  inside, outside, lock_starts, lock_takes, lock_marks,
}
use p.User.Mutex.Safety.{mutual_exclusion}
use p.User.Mutex.Progress.{deadlock_freedom}
use p.User.RwLock.{
  RwLock, History, start, write_in, read, write, rwlock_init, rwlock_lock, rwlock_unlock,
  rwlock_downgrade, sem_wait, sem_signal, ◌>>=◌,
}
use p.User.RwLock.Exclusion.{writer_excludes, left_by_writer, downgrade-unlock}

abbrev fresh : Mutex
fresh = record { status = 7; state = 7 }

-- Thread 3 is inside, and thread 5 waits in the loop.
abbrev one_waits : System
one_waits = record {
  mutex = record { status = 1; state = 1 };
  pc = update (update (update (update (λ i. outside) 3 locking) 5 locking) 3 taken) 3 inside;
}

one_waits-Steps : Steps (initial fresh) one_waits
unfolding mutex_init spinlock_init
one_waits-Steps =
    later
      (later
        (later (later here (pick 3 (lock_starts (omega arith))))
          (pick 5 (lock_starts (omega arith))))
        (pick 3 (lock_takes refl)))
      (pick 3 lock_marks)

mutual_exclusion_example : ◌≡◌ {A = ℕ} 3 3
mutual_exclusion_example = mutual_exclusion fresh one_waits 3 3 one_waits-Steps refl refl

deadlock_freedom_example : (t : System) × Steps one_waits t × (t.pc 5 ≡ inside)
deadlock_freedom_example = deadlock_freedom fresh one_waits 5 one_waits-Steps refl

abbrev any_lock : RwLock
any_lock = record {
  readcnt = 0;
  writecnt = 0;
  rcnt_mutex = 0;
  wcnt_mutex = 0;
  gen_mutex = 0;
  w = 0;
  r = 0;
}

-- A writer is inside.
abbrev written : RwLock
written = record {
  readcnt = 0;
  writecnt = 1;
  rcnt_mutex = 1;
  wcnt_mutex = 1;
  gen_mutex = 1;
  w = 0;
  r = 0;
}

written_call : rwlock_lock write (rwlock_init any_lock) ≡ some written
unfolding rwlock_lock rwlock_init sem_wait sem_signal
written_call = refl

written-History : History written 0 1
written-History = write_in (start any_lock) written_call

writer_excludes_example : (◌≡◌ {A = ℕ} 1 0) ⊎ ((◌≡◌ {A = ℕ} 1 1) × (◌≡◌ {A = ℕ} 0 0))
writer_excludes_example = writer_excludes written 0 1 written-History

left_by_writer_example :
    (l' : RwLock) × (rwlock_unlock written ≡ some l') × (rwlock_lock read l' ≡ none)
left_by_writer_example = left_by_writer written read written-History

downgrade-unlock_example : (rwlock_downgrade written >>= rwlock_unlock) ≡ some (rwlock_init written)
downgrade-unlock_example = downgrade-unlock written written-History
