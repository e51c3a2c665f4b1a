-- ===== src/User/Threads/Steps.antt =====
-- The threads of a task, whose steps come in any order.
use p.Base.{ℕ, ◌^◌, ◌<◌, ◌≡◌, Bool, false, List, [], ◌∷◌, update}
use p.LinkedList.{Ptr}
use p.User.Threads.{
  Task, Node, Stage, running, found, waiting, reaping, exiting, vanishing, unlisting, Call, join,
  exit, begin, advance,
}

abbrev pub AllAllocated : Task → List Node → Type 0
AllAllocated t [] = Unit
AllAllocated t (n ∷ ns) = (t.freed n.thread ≡ false) × AllAllocated t ns

-- What a call, and the next step of a call, rely on: the list's lock is there to be had, no
-- `thread_t` that has been freed is read, since what freed memory holds is not known, and a thread
-- has its stack, which goes with its `thread_t`.
abbrev pub Reads : Task → Call → Type 0
Reads t (join tid) = t.list_locked ≡ false
Reads t (exit status) = (t.list_locked ≡ false) × AllAllocated t t.thread_list

abbrev pub Touches : Task → Stage → Type 0
Touches t (found tid p) = t.freed p ≡ false
Touches t (waiting tid p) = t.freed p ≡ false
Touches t (reaping tid p status) = t.freed p ≡ false
Touches t (exiting p status) = t.freed p ≡ false
Touches t (vanishing p) = t.freed p ≡ false
Touches t (unlisting tid p status) = t.list_locked ≡ false
Touches t _ = Unit

-- The threads of the task, interleaved in any order. The thread with id `i` is the caller of its
-- calls; ids are positive `int`s. A run goes on as long as no thread reads a freed `thread_t`
-- or is without its stack.
pub record Library : Type 0 where
  pub task : Task
  pub pc : ℕ → Stage

abbrev pub after : ℕ → Stage × Task → Library → Library
after i (p, t) s = record { task = t; pc = update s.pc i p }

pub data Step (s : Library) : Library → Type 0 where
  call :
      (i : ℕ) (c : Call) (busy : Ptr → Bool)
      → 0 < i
      → i < 2 ^ 31
      → s.pc i ≡ running
      → Reads s.task c
      → Step s (after i (begin busy i c s.task) s)
  next :
      (i : ℕ) (busy : Ptr → Bool)
      → 0 < i
      → i < 2 ^ 31
      → Touches s.task (s.pc i)
      → Step s (after i (advance busy i s.task (s.pc i)) s)

pub data Steps (s : Library) : Library → Type 0 where
  here : Steps s s
  later : {t u : Library} → Steps s t → Step t u → Steps s u
