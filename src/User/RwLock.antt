-- ===== src/User/RwLock.antt =====
-- user/libthread/rwlock.c over the counts of its semaphores, for calls that run one after the other:
-- a call comes back, or stops in a `sem_wait` until another thread signals.
pub mod Phases
pub mod Exclusion
use p.Base.{
  ℕ, zero, suc, ◌+◌, ◌-◌, ◌%◌, ◌^◌, ◌<◌, ◌≡◌, ◌||◌, ◌&&◌, Option, none, some, if◌then◌else◌, ◌==◌,
  leb, ltb,
}

-- An `rwlock_t`; of each semaphore its count. All are 32-bit patterns of `int`s.
pub record RwLock : Type 0 where
  pub readcnt : ℕ
  pub writecnt : ℕ
  pub rcnt_mutex : ℕ
  pub wcnt_mutex : ℕ
  pub gen_mutex : ℕ
  pub w : ℕ
  pub r : ℕ

infixl 5 ◌>>=◌
abbrev pub ◌>>=◌ : {A : Type 0} {B : Type 0} → Option A → (A → Option B) → Option B
none >>= k = none
some a >>= k = k a

-- `sem_wait` and `sem_signal` on a count; `none` is a call that waits.
unfoldable pub sem_wait : ℕ → Option ℕ
sem_wait count = if (count == 0) || leb (2 ^ 31) count then none else some (count - 1)

unfoldable pub sem_signal : ℕ → ℕ
sem_signal count = (count + 1) % 2 ^ 32

abbrev pub increment : ℕ → ℕ
increment a = (a + 1) % 2 ^ 32

abbrev pub decrement : ℕ → ℕ
decrement a = (a + 2 ^ 32 - 1) % 2 ^ 32

unfoldable pub rwlock_init : RwLock → RwLock
rwlock_init l = record {
  readcnt = 0;
  writecnt = 0;
  rcnt_mutex = 1;
  wcnt_mutex = 1;
  gen_mutex = 1;
  w = 1;
  r = 1;
}

pub data LockType : Type 0 where
  read write : LockType

unfoldable pub rwlock_lock : LockType → RwLock → Option RwLock
rwlock_lock read l = do
  gen ← sem_wait l.gen_mutex
  r ← sem_wait l.r
  rcnt ← sem_wait l.rcnt_mutex
  w ← (if increment l.readcnt == 1 then sem_wait l.w else some l.w)
  some (record l {
    readcnt = increment l.readcnt;
    w = w;
    rcnt_mutex = sem_signal rcnt;
    r = sem_signal r;
    gen_mutex = sem_signal gen;
  })
rwlock_lock write l = do
  wcnt ← sem_wait l.wcnt_mutex
  r ← sem_wait l.r
  w ← sem_wait l.w
  some (record l { writecnt = increment l.writecnt; r = r; w = w; wcnt_mutex = sem_signal wcnt })

-- The test `readcnt > 0` is on an `int`.
unfoldable pub rwlock_unlock : RwLock → Option RwLock
rwlock_unlock l =
    if ltb 0 l.readcnt && ltb l.readcnt (2 ^ 31)
    then (do
      rcnt ← sem_wait l.rcnt_mutex
      some (record l {
        readcnt = decrement l.readcnt;
        w = if decrement l.readcnt == 0 then sem_signal l.w else l.w;
        rcnt_mutex = sem_signal rcnt;
      }))
    else (do
      wcnt ← sem_wait l.wcnt_mutex
      some (record l {
        writecnt = decrement l.writecnt;
        r = if decrement l.writecnt == 0 then sem_signal l.r else l.r;
        wcnt_mutex = sem_signal wcnt;
      }))

unfoldable pub rwlock_downgrade : RwLock → Option RwLock
rwlock_downgrade l = do
  wcnt ← sem_wait l.wcnt_mutex
  rcnt ← sem_wait l.rcnt_mutex
  some (record l {
    writecnt = decrement l.writecnt;
    readcnt = increment l.readcnt;
    rcnt_mutex = sem_signal rcnt;
    wcnt_mutex = sem_signal wcnt;
    r = sem_signal l.r;
  })

-- A lock after calls that have come back, with the readers and the writers that are inside. A
-- thread calls `rwlock_unlock` and `rwlock_downgrade` only from inside.
pub data History : RwLock → ℕ → ℕ → Type 0 where
  start : (l : RwLock) → History (rwlock_init l) 0 0
  read_in :
      {l l' : RwLock} {rs ws : ℕ}
      → History l rs ws
      → rs + 1 < 2 ^ 31
      → rwlock_lock read l ≡ some l'
      → History l' (rs + 1) ws
  write_in :
      {l l' : RwLock} {rs ws : ℕ}
      → History l rs ws
      → rwlock_lock write l ≡ some l'
      → History l' rs (ws + 1)
  read_out :
      {l l' : RwLock} {rs ws : ℕ}
      → History l (rs + 1) ws
      → rwlock_unlock l ≡ some l'
      → History l' rs ws
  write_out :
      {l l' : RwLock} {rs ws : ℕ}
      → History l rs (ws + 1)
      → rwlock_unlock l ≡ some l'
      → History l' rs ws
  downgrade :
      {l l' : RwLock} {rs ws : ℕ}
      → History l rs (ws + 1)
      → rwlock_downgrade l ≡ some l'
      → History l' (rs + 1) ws
