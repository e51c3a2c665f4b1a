-- ===== src/User/Threads/Races.antt =====
-- Two interleavings that user/libthread/thread_mgmt.c allows.
use p.Base.{
  ℕ, ◌^◌, ◌<◌, ◌≡◌, refl, sym, ◌≢◌, Bool, true, false, some, arith, ◌==◌, update, ne→==-false,
  ==_refl,
}
use p.User.Threads.{
  Task, Stage, running, gone, found, reaping, unlisting, exiting, vanishing, thread_exit,
  given_back, destroy_locks, search_thread_by_id, thr_join, join_check, join_claim, thr_exit,
  exit_mark, count_running, thr_reap, Call, join, exit, begin, advance,
}
use p.User.Threads.Steps.{
  AllAllocated, Reads, Touches, Library, after, Step, Steps, call, next, here, later,
}

-- No lock is found in use.
abbrev pub idle : ℕ → Bool
idle p = false

-- Two threads that exit while they are the last: what `thr_exit` does under the list's lock.
exit_starts :
    (i st p : ℕ) (t : Task)
    → t.single_threaded ≡ false
    → (count_running t.threads t.thread_list == 1) ≡ false
    → search_thread_by_id i t.thread_list ≡ some p
    → begin idle i (exit st) t ≡ (exiting p st, t)
unfolding begin thr_exit
exit_starts i st p t many live there = ground (arith, many, live, there)

join_starts :
    (i x p : ℕ) (t : Task)
    → i ≢ x
    → search_thread_by_id x t.thread_list ≡ some p
    → begin idle i (join x) t ≡ (found x p, t)
unfolding begin thr_join
join_starts i x p t ne there = ground (arith, there)

claim_lem :
    (i x p : ℕ) (t : Task)
    → (t.threads p).status ≡ thread_exit
    → (t.threads p).joining_tid ≡ 0
    → join_claim i x p t ≡ (
      reaping x p (t.threads p).statusp,
      record t { threads = update t.threads p (record (t.threads p) { joining_tid = i }) },
    )
unfolding join_claim join_check
claim_lem i x p t done alone = ground (arith, done, alone)

pub call_to :
    (s : Library) (i : ℕ) (c : Call) (x : Stage × Task)
    → 0 < i
    → i < 2 ^ 31
    → s.pc i ≡ running
    → Reads s.task c
    → begin idle i c s.task ≡ x
    → Step s (after i x s)
call_to s i c x lo hi at mem e = rw (sym e) (call i c idle lo hi at mem)

pub next_to :
    (s : Library) (i : ℕ) (o : Stage) (x : Stage × Task)
    → 0 < i
    → i < 2 ^ 31
    → s.pc i ≡ o
    → Touches s.task o
    → advance idle i s.task o ≡ x
    → Step s (after i x s)
next_to s i o x lo hi at mem e =
    let mem' : Touches s.task (s.pc i) = rw at mem in
    let e' : advance idle i s.task (s.pc i) ≡ x = rw at e in rw (sym e') (next i idle lo hi mem')

-- Two threads in their own code, ids of positive ints.
module _ (s : Library) (i j : ℕ) (ne : i ≢ j) (lo : 0 < i) (hi : i < 2 ^ 31) (lo' : 0 < j)
    (hi' : j < 2 ^ 31) (at : s.pc i ≡ running) (at' : s.pc j ≡ running) where
  apart : (i == j) ≡ false
  apart = ne→==-false i j ne

  apart' : (j == i) ≡ false
  apart' = ne→==-false j i (λ e. ne (sym e))

  -- For two threads i and j in their own code, each with a thread_t that is in the list, in a
  -- task that has created threads, where the list's lock is free, no thread_t of the list is
  -- freed and not just one is marked as running: there is an interleaving of two calls of
  -- thr_exit behind which both threads have vanished, the list is as it was, and no stack and
  -- no thread_t has been given back.
  pub exits_leave :
      (p q st st' : ℕ)
      → s.task.single_threaded ≡ false
      → (count_running s.task.threads s.task.thread_list == 1) ≡ false
      → s.task.list_locked ≡ false
      → AllAllocated s.task s.task.thread_list
      → search_thread_by_id i s.task.thread_list ≡ some p
      → search_thread_by_id j s.task.thread_list ≡ some q
      → s.task.freed p ≡ false
      → s.task.freed q ≡ false
      → (t : Library) × Steps s t
        × (t.pc i ≡ gone)
        × (t.pc j ≡ gone)
        × (t.task.thread_list ≡ s.task.thread_list)
        × (t.task.freed ≡ s.task.freed)
        × (t.task.removed ≡ s.task.removed)
  unfolding advance exit_mark
  exits_leave p q st st' many live lock mem there there' free free' =
      let s1 = after i (exiting p st, s.task) s in
      let s2 = after j (exiting q st', s.task) s1 in
      let s3 = after i (vanishing p, exit_mark p st s.task) s2 in
      let s4 = after j (vanishing q, exit_mark q st' s3.task) s3 in
      let s5 = after i (gone, s4.task) s4 in
      let s6 = after j (gone, s4.task) s5 in
      let a : Step s s1 =
        call_to s i (exit st) (exiting p st, s.task) lo hi at (lock, mem)
          (exit_starts i st p s.task many live there) in
      let b : Step s1 s2 =
        call_to s1 j (exit st') (exiting q st', s.task) lo' hi' (rw apart' at') (lock, mem)
          (exit_starts j st' q s.task many live there') in
      let c : Step s2 s3 =
        next_to s2 i (exiting p st) (vanishing p, exit_mark p st s.task) lo hi
          (rw (apart, ==_refl i) refl) free refl in
      let d : Step s3 s4 =
        next_to s3 j (exiting q st') (vanishing q, exit_mark q st' s3.task) lo' hi'
          (rw (apart', ==_refl j) refl) free' refl in
      let g : Step s4 s5 =
        next_to s4 i (vanishing p) (gone, s4.task) lo hi (rw (apart, ==_refl i) refl) free refl in
      let h : Step s5 s6 =
        next_to s5 j (vanishing q) (gone, s4.task) lo' hi' (rw (apart', ==_refl j) refl) free'
          refl in
      (
        s6,
        later (later (later (later (later (later here a) b) c) d) g) h,
        rw (apart, ==_refl i) refl,
        rw (==_refl j) refl,
        refl,
        refl,
        refl,
      )

  -- For two threads i and j in their own code and a third thread x that has exited, whose
  -- thread_t is in the list, not freed and not joined, while the list's lock is free: there is
  -- an interleaving of two calls of thr_join on x in which the thread_t has been freed while j,
  -- which has found it, is about to lock its mutex.
  pub joins_race :
      (x p : ℕ)
      → i ≢ x
      → j ≢ x
      → s.task.list_locked ≡ false
      → search_thread_by_id x s.task.thread_list ≡ some p
      → s.task.freed p ≡ false
      → (s.task.threads p).status ≡ thread_exit
      → (s.task.threads p).joining_tid ≡ 0
      → (t : Library) × Steps s t × (t.pc j ≡ found x p) × (t.task.freed p ≡ true)
  unfolding advance thr_reap destroy_locks
  joins_race x p nx nx' lock there free done alone =
      let t1 = record s.task {
        threads = update s.task.threads p (record (s.task.threads p) { joining_tid = i });
      } in
      let st = (s.task.threads p).statusp in
      let s1 = after j (found x p, s.task) s in
      let s2 = after i (found x p, s.task) s1 in
      let s3 = after i (reaping x p st, t1) s2 in
      let s4 = after i (unlisting x p st, given_back p t1) s3 in
      let a : Step s s1 =
        call_to s j (join x) (found x p, s.task) lo' hi' at' lock
          (join_starts j x p s.task nx' there) in
      let b : Step s1 s2 =
        call_to s1 i (join x) (found x p, s.task) lo hi (rw apart at) lock
          (join_starts i x p s.task nx there) in
      let c : Step s2 s3 =
        next_to s2 i (found x p) (reaping x p st, t1) lo hi (rw (==_refl i) refl) free
          (claim_lem i x p s.task done alone) in
      let d : Step s3 s4 =
        next_to s3 i (reaping x p st) (unlisting x p st, given_back p t1) lo hi
          (rw (==_refl i) refl) free refl in
      (
        s4,
        later (later (later (later here a) b) c) d,
        rw (apart', ==_refl j) refl,
        rw (==_refl p) refl,
      )
