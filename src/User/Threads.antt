-- ===== src/User/Threads.antt =====
-- user/libthread/thread_mgmt.c: the threads that one task's library keeps, a list of nodes, each of
-- which points to a `thread_t`. What a thread does under one lock is one step.
pub mod Size
pub mod Steps
pub mod Owners
pub mod Moves
pub mod Joins
pub mod Races
use p.Base.{
  ℕ, zero, suc, ◌+◌, ◌-◌, ◌*◌, ◌%◌, ◌^◌, ◌<◌, ◌≡◌, Bool, true, false, ◌&&◌, not, Option, none, some,
  List, [], ◌∷◌, if◌then◌else◌, ◌==◌, ltb, leb, update,
}
use p.Frames.{page_size}
use p.Paging.{minus_one}
use p.LinkedList.{Ptr, null}

-- A `thread_t`, without its mutex and its condition variable. `int`s are 32-bit patterns.
pub record Thread : Type 0 where
  pub tid : ℕ
  pub base : ℕ
  pub status : ℕ
  pub statusp : ℕ
  pub joining_tid : ℕ

-- THREAD_EXIT and THREAD_RUNNING
abbrev pub thread_exit : ℕ
thread_exit = 2 ^ 32 - 1

abbrev pub thread_running : ℕ
thread_running = 1

pub record Node : Type 0 where
  pub tid : ℕ
  pub thread : Ptr

-- The library's globals, the `thread_t` at each address, the addresses that have been freed, and
-- the stacks given to `remove_pages`, the newest first.
pub record Task : Type 0 where
  pub single_threaded : Bool
  pub thread_list : List Node
  pub threads : Ptr → Thread
  pub freed : Ptr → Bool
  pub removed : List ℕ
  pub list_locked : Bool

-- `thr_init` rounds the size of a stack up to pages: its loop from round `i`, and the page that it
-- adds. `none` is a loop that is still running when the fuel has run out.
unfoldable pub round_loop : ℕ → ℕ → ℕ → Option ℕ
round_loop zero size i = none
round_loop (suc fuel) size i =
    let rest = round_loop fuel size (i + 1) in
    if leb size (page_size * i % 2 ^ 32) then some (i * page_size % 2 ^ 32) else rest

unfoldable pub adjusted_size : ℕ → ℕ → Option ℕ
adjusted_size fuel size = elim (round_loop fuel size 1) [
  | none ↦ none
  | some adjusted ↦ some ((adjusted + page_size) % 2 ^ 32)
]

-- The task's only thread: `thr_init` sets nothing but the status of the `thread_t` at `p`.
unfoldable pub thr_init : ℕ → Ptr → Task → Task
thr_init this p t = record t {
  thread_list = record { tid = this; thread = p } ∷ [];
  threads = update t.threads p (record (t.threads p) { status = thread_running });
}

unfoldable pub list_search : ℕ → List Node → Option Node
list_search tid [] = none
list_search tid (n ∷ ns) = if n.tid == tid then some n else list_search tid ns

unfoldable pub search_thread_by_id : ℕ → List Node → Option Ptr
search_thread_by_id tid ns = elim (list_search tid ns) [ none ↦ none | some n ↦ some n.thread ]

unfoldable pub list_delete_id : ℕ → List Node → List Node
list_delete_id tid [] = []
list_delete_id tid (n ∷ ns) = if n.tid == tid then ns else n ∷ list_delete_id tid ns

-- `mutex_destroy` and then `cond_destroy`: each ends the caller by `vanish` when it finds what it is
-- to destroy in use, as it may be by a thread that holds the mutex or waits. `busy` tells of which
-- threads that is so now, since the locks of a `thread_t` are not part of the state here.
unfoldable pub destroy_locks : (Ptr → Bool) → Ptr → Task → Option Task
destroy_locks busy p t = if busy p then none else some t

abbrev pub given_back : Ptr → Task → Task
given_back p t = record t {
  freed = update t.freed p true;
  removed = (t.threads p).base ∷ t.removed;
}

-- `none` is a caller that has vanished.
unfoldable pub thr_reap : (Ptr → Bool) → Ptr → Task → Option Task
unfolding destroy_locks
thr_reap busy p t = elim (destroy_locks busy p t) [ none ↦ none | some t' ↦ some (given_back p t') ]

-- Where a thread stands: in its own code; in `thr_join` (behind the search, in the loop that waits,
-- behind it, and behind `thr_reap`) with the thread that it joins; back from a call, with the
-- result and the status that the call has stored; in `thr_exit` behind the first lock, and, marked
-- as exited, ahead of its `vanish`; ended by `vanish`, ended with the task, or at a null pointer.
pub data Stage : Type 0 where
  running gone ended crashed : Stage
  found : ℕ → Ptr → Stage
  waiting : ℕ → Ptr → Stage
  reaping : ℕ → Ptr → ℕ → Stage
  unlisting : ℕ → Ptr → ℕ → Stage
  returned : ℕ → Option ℕ → Stage
  exiting : Ptr → ℕ → Stage
  vanishing : Ptr → Stage

-- `thr_join` up to the end of its search.
unfoldable pub thr_join : ℕ → ℕ → Task → Stage
thr_join this tid t =
    if this == tid then returned minus_one none else elim (search_thread_by_id tid t.thread_list) [
      | none ↦ returned 0 none
      | some p ↦ found tid p
    ]

-- The test of the loop, and the read of the status behind the loop.
unfoldable pub join_check : ℕ → Ptr → Task → Stage
join_check tid p t =
    if (t.threads p).status == thread_exit
    then reaping tid p (t.threads p).statusp
    else waiting tid p

-- From the lock of the target's mutex on.
unfoldable pub join_claim : ℕ → ℕ → Ptr → Task → Stage × Task
unfolding join_check
join_claim this tid p t =
    let joining = (t.threads p).joining_tid in
    if ltb 0 joining && ltb joining (2 ^ 31)
    then (returned minus_one none, t)
    else let t' = record t {
      threads = update t.threads p (record (t.threads p) { joining_tid = this });
    } in
      (join_check tid p t', t')

unfoldable pub count_running : (Ptr → Thread) → List Node → ℕ
count_running threads [] = 0
count_running threads (n ∷ ns) =
    if (threads n.thread).status == thread_running
    then count_running threads ns + 1
    else count_running threads ns

-- The loop of the last thread to exit. A caller that vanishes in it keeps the list's lock.
unfoldable pub reap_all : (Ptr → Bool) → ℕ → List Node → Task → Bool × Task
unfolding destroy_locks thr_reap
reap_all busy tid [] t = (true, record t { thread_list = [] })
reap_all busy tid (n ∷ ns) t =
    elim (if (t.threads n.thread).tid == tid
      then destroy_locks busy n.thread t
      else thr_reap busy n.thread t) [
        | none ↦ (false, record t { thread_list = ns; list_locked = true })
        | some t' ↦ reap_all busy tid ns t'
      ]

-- The last thread's way out: `busy null` is about the list's own mutex and condition variable.
unfoldable pub exit_last : (Ptr → Bool) → ℕ → Task → Stage × Task
exit_last busy this t =
    let (done, t') = reap_all busy this t.thread_list t in
    if done && not (busy null) then (ended, t') else (gone, t')

-- `thr_exit` up to the end of what it does under the list's lock.
unfoldable pub thr_exit : (Ptr → Bool) → ℕ → ℕ → Task → Stage × Task
thr_exit busy this status t =
    if t.single_threaded
    then (gone, t)
    else if count_running t.threads t.thread_list == 1
    then exit_last busy this t
    else elim (search_thread_by_id this t.thread_list) [
      | none ↦ (crashed, t)
      | some p ↦ (exiting p status, t)
    ]

-- What `thr_exit` does under the lock of its own thread; its `vanish` comes behind that lock.
unfoldable pub exit_mark : Ptr → ℕ → Task → Task
exit_mark p status t = record t {
  threads = update t.threads p (record (t.threads p) { status = thread_exit; statusp = status });
}

-- The calls that a thread makes in its own code, and what it does next in a call.
pub data Call : Type 0 where
  join : ℕ → Call
  exit : ℕ → Call

unfoldable pub begin : (Ptr → Bool) → ℕ → Call → Task → Stage × Task
unfolding thr_join thr_exit
begin busy this (join tid) t = (thr_join this tid t, t)
begin busy this (exit status) t = thr_exit busy this status t

-- A thread that waits may look at the status at any time.
unfoldable pub advance : (Ptr → Bool) → ℕ → Task → Stage → Stage × Task
unfolding join_claim join_check exit_mark thr_reap list_delete_id
advance busy this t (found tid p) = join_claim this tid p t
advance busy this t (waiting tid p) = (join_check tid p t, t)
advance busy this t (reaping tid p status) = elim (thr_reap busy p t) [
  | none ↦ (gone, t)
  | some t' ↦ (unlisting tid p status, t')
]
advance busy this t (unlisting tid p status) =
    (returned 0 (some status), record t { thread_list = list_delete_id tid t.thread_list })
advance busy this t (exiting p status) = (vanishing p, exit_mark p status t)
advance busy this t (vanishing p) = (gone, t)
advance busy this t (returned result status) = (running, t)
advance busy this t running = (running, t)
advance busy this t gone = (gone, t)
advance busy this t ended = (ended, t)
advance busy this t crashed = (crashed, t)

-- `thr_yield`, over what the system call `yield` answers.
unfoldable pub thr_yield : (ℕ → ℕ) → ℕ → Task → ℕ
thr_yield yield tid t = elim (search_thread_by_id tid t.thread_list) [
  | none ↦ minus_one
  | some p ↦ if (t.threads p).status == thread_exit then minus_one else yield tid
]
