-- ===== src/User/Mutex.antt =====
-- user/libthread/spinlock.c and user/libthread/mutex.c: threads that lock and unlock one mutex, a
-- shared access at a time.
pub mod Safety
pub mod Progress
use p.Base.{ℕ, ◌-◌, ◌^◌, Bool, true, false, ◌≡◌, ◌≢◌, update, ◌==◌, if◌then◌else◌}

-- A `mutex_t`: its status, and the state of its spinlock.
pub record Mutex : Type 0 where
  pub status : ℕ
  pub state : ℕ

abbrev pub unlocked : ℕ
unlocked = 0

abbrev pub locked : ℕ
locked = 1

-- MUTEX_UNAVAILABLE is -1.
abbrev pub unavailable : ℕ
unavailable = 2 ^ 32 - 1

unfoldable pub spinlock_init : Mutex → Mutex
spinlock_init m = record m { state = unlocked }

unfoldable pub mutex_init : Mutex → Mutex
mutex_init m = spinlock_init (record m { status = unlocked })

-- A call that comes back, or ends the thread by `vanish`.
pub data Destroyed : Type 0 where
  destroyed : Mutex → Destroyed
  vanished : Destroyed

-- Behind its test `spinlock_destroy` assigns to its own pointer, which changes no spinlock.
unfoldable pub spinlock_destroy : Mutex → Destroyed
spinlock_destroy m = if m.state == locked then vanished else destroyed m

unfoldable pub mutex_destroy : Mutex → Destroyed
mutex_destroy m = elim (spinlock_destroy m) [
  | vanished ↦ vanished
  | destroyed m' ↦
      if m'.status == locked then vanished else destroyed (record m' { status = unavailable })
]

-- Where a thread stands: out of the library, in `mutex_lock` (in the loop, and behind it), between
-- the two calls, and in `mutex_unlock` (behind its test, and behind its first write).
pub data Pc : Type 0 where
  outside locking taken inside unlocking freeing : Pc

-- One step of one thread. `atomic_xchange` writes 1 and reads the old value at once.
pub data Move (m : Mutex) : Pc → Mutex → Pc → Type 0 where
  lock_returns : m.status ≡ unavailable → Move m outside m inside
  lock_starts : m.status ≢ unavailable → Move m outside m locking
  lock_spins : m.state ≢ unlocked → Move m locking (record m { state = 1 }) locking
  lock_takes : m.state ≡ unlocked → Move m locking (record m { state = 1 }) taken
  lock_marks : Move m taken (record m { status = locked }) inside
  unlock_returns : m.status ≡ unavailable → Move m inside m outside
  unlock_starts : m.status ≢ unavailable → Move m inside m unlocking
  unlock_marks : Move m unlocking (record m { status = unlocked }) freeing
  unlock_frees : Move m freeing (record m { state = unlocked }) outside

-- Any number of threads, interleaved in any order.
pub record System : Type 0 where
  pub mutex : Mutex
  pub pc : ℕ → Pc

pub data Step (s : System) : System → Type 0 where
  pick :
      (i : ℕ) {m : Mutex} {p : Pc}
      → Move s.mutex (s.pc i) m p
      → Step s (record { mutex = m; pc = update s.pc i p })

pub data Steps (s : System) : System → Type 0 where
  here : Steps s s
  later : {t u : System} → Steps s t → Step t u → Steps s u

-- `mutex_init` has been called, and no thread has called `mutex_lock` yet.
abbrev pub initial : Mutex → System
initial m = record { mutex = mutex_init m; pc = λ i. outside }

-- The thread holds the spinlock.
abbrev pub holds : Pc → Bool
holds outside = false
holds locking = false
holds _ = true
