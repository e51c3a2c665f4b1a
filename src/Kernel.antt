-- ===== src/Kernel.antt =====
-- The threads of the kernel: kern/inc/control_block.h and kern/locks/mutex.c.
pub mod Queues
use p.Base.{ℕ, ◌+◌, ◌-◌, ◌^◌, Bool, true, false, if◌then◌else◌, ◌==◌, update, ◌||◌, not}
use p.LinkedList.{Ptr, Store}

-- The THREAD_ constants.
pub data ThreadState : Type 0 where
  exit blocked running runnable waiting sleeping init readline : ThreadState

-- The fields of a TCB that scheduling uses; `pd` is its process's page directory and `stack_top`
-- the end of its kernel stack.
pub record Tcb : Type 0 where
  pub tid : ℕ
  pub state : ThreadState
  pub start_ticks : ℕ
  pub duration : ℕ
  pub pd : ℕ
  pub stack_top : ℕ

-- A `mutex_t`; of its waiting queue, the length.
pub record Mutex : Type 0 where
  pub status : ℕ
  pub tid : ℕ
  pub waiters : ℕ

-- A TCB is known by the address of its `thread_list_node`, from which `list_entry` finds it.
-- `cr3` and `esp0` are the registers that a switch loads, `interrupts` whether they are enabled.
pub record Kernel : Type 0 where
  pub store : Store
  pub tcb : Ptr → Tcb
  pub current : Ptr
  pub ticks : ℕ
  pub mutex : ℕ → Mutex
  pub interrupts : Bool
  pub cr3 : ℕ
  pub esp0 : ℕ

-- The addresses of the queues; any that differ would do.
abbrev pub blocked_queue : Ptr
blocked_queue = 1

abbrev pub runnable_queue : Ptr
runnable_queue = 2

abbrev pub process_queue : Ptr
process_queue = 3

-- The mutexes: the global ones, and that of each TCB.
abbrev pub blocked_queue_lock : ℕ
blocked_queue_lock = 0

abbrev pub runnable_queue_lock : ℕ
runnable_queue_lock = 1

abbrev pub deschedule_lock : ℕ
deschedule_lock = 2

abbrev pub print_lock : ℕ
print_lock = 3

abbrev pub process_queue_lock : ℕ
process_queue_lock = 4

abbrev pub tcb_mutex : Ptr → ℕ
tcb_mutex p = p + 5

-- -1 as a 32-bit pattern
abbrev pub minus_one : ℕ
minus_one = 2 ^ 32 - 1

-- A call comes back, reads through NULL, or meets a mutex that is held or waited for, where the
-- thread gives up the processor.
pub data Run (A : Type 0) : Type 0 where
  ok : A → Kernel → Run A
  fault : Run A
  contended : Run A

abbrev pub Cmd : Type 0 → Type 0
Cmd A = Kernel → Run A

abbrev pub pure : {A : Type 0} → A → Cmd A
pure = ok

infixl 5 ◌>>=◌ ◌>>◌
abbrev pub and_then : {A B : Type 0} → Run A → (A → Cmd B) → Run B
and_then (ok a k) f = f a k
and_then fault f = fault
and_then contended f = contended

abbrev pub ◌>>=◌ : {A B : Type 0} → Cmd A → (A → Cmd B) → Cmd B
m >>= f = λ k. and_then (m k) f

abbrev pub ◌>>◌ : {A B : Type 0} → Cmd A → Cmd B → Cmd B
m >> n = m >>= λ _. n

-- A change of the state that cannot fail.
abbrev pub modify : (Kernel → Kernel) → Cmd (Unit {0})
modify f k = ok tt (f k)

abbrev pub set_state : Ptr → ThreadState → Kernel → Kernel
set_state p st k = record k { tcb = update k.tcb p (record (k.tcb p) { state = st }) }

unfoldable pub mutex_init : ℕ → Kernel → Kernel
mutex_init l k = record k {
  mutex = update k.mutex l (record { status = 0; tid = minus_one; waiters = 0 });
}

unfoldable pub mutex_destroy : ℕ → Kernel → Kernel
mutex_destroy l k =
    if (k.mutex l).status == 1 || not ((k.mutex l).waiters == 0)
    then k
    else record k { mutex = update k.mutex l (record (k.mutex l) { status = minus_one }) }

-- `atomic_xchange` sets the status to 1 and gives its old value.
unfoldable pub mutex_lock : ℕ → Cmd (Unit {0})
mutex_lock l k =
    if (k.mutex l).status == 0
    then ok tt (record k {
      mutex = update k.mutex l (record (k.mutex l) { status = 1; tid = (k.tcb k.current).tid });
    })
    else contended

unfoldable pub mutex_unlock : ℕ → Cmd (Unit {0})
mutex_unlock l k =
    if (k.mutex l).waiters == 0
    then ok tt
        (record k { mutex = update k.mutex l (record (k.mutex l) { status = 0; tid = minus_one }) })
    else contended
