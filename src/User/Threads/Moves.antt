-- ===== src/User/Threads/Moves.antt =====
-- What one step of a thread does to the threads of its task.
use p.Base.{
  ℕ, ◌^◌, ◌≡◌, refl, Bool, true, false, ◌&&◌, Option, none, some, arith, ◌==◌, ltb, update,
  Bool-cases, Option-cases, inl, inr,
}
use p.LinkedList.{Ptr}
use p.User.Threads.{
  Thread, Task, Stage, running, gone, ended, crashed, found, waiting, reaping, unlisting, returned,
  exiting, vanishing, thread_exit, search_thread_by_id, thr_reap, destroy_locks, thr_join,
  join_check, join_claim, thr_exit, exit_mark, count_running, Call, join, exit, begin, advance,
}
use p.User.Threads.Owners.{AllOwned, search-AllOwned, exit_last-threads}

-- The thread whose `joining_tid` the caller of `thr_join` has set.
abbrev pub target : Stage → Option Ptr
target (waiting tid p) = some p
target (reaping tid p st) = some p
target (unlisting tid p st) = some p
target _ = none

-- The caller's own `thread_t`, when it is going to mark it.
abbrev pub leaver : Stage → Option Ptr
leaver (exiting p st) = some p
leaver _ = none

-- Behind the mark of `thr_exit`.
abbrev pub has_left : Stage → Bool
has_left (vanishing p) = true
has_left gone = true
has_left _ = false

-- A status that `thr_join` has read is that of a thread that has exited.
abbrev pub Collected : (Ptr → Thread) → Stage → Type 0
Collected threads (reaping tid p st) =
    ((threads p).status ≡ thread_exit) × ((threads p).statusp ≡ st)
Collected threads (unlisting tid p st) =
    ((threads p).status ≡ thread_exit) × ((threads p).statusp ≡ st)
Collected threads _ = Unit {0}

-- `f` is what `thread_t`s were, `g` what they are behind a step of thread `i` from `o` to `n`.
pub data Effect (owner : Ptr → ℕ) (i : ℕ) (f g : Ptr → Thread) (o n : Stage) : Type 0 where
  idles :
      target n ≡ none
      → leaver n ≡ none
      → (has_left o ≡ true → has_left n ≡ true)
      → g ≡ f
      → Effect owner i f g o n
  leaves :
      (p st : ℕ) → n ≡ exiting p st → o ≡ running → owner p ≡ i → g ≡ f → Effect owner i f g o n
  claims :
      (tid p : ℕ)
      → o ≡ found tid p
      → (ltb 0 (f p).joining_tid && ltb (f p).joining_tid (2 ^ 31)) ≡ false
      → target n ≡ some p
      → leaver n ≡ none
      → g ≡ update f p (record (f p) { joining_tid = i })
      → Collected g n
      → Effect owner i f g o n
  stays :
      (p : ℕ)
      → target o ≡ some p
      → target n ≡ some p
      → leaver n ≡ none
      → g ≡ f
      → Collected g n
      → Effect owner i f g o n
  marks :
      (p st : ℕ)
      → o ≡ exiting p st
      → has_left n ≡ true
      → target n ≡ none
      → leaver n ≡ none
      → g ≡ update f p (record (f p) { status = thread_exit; statusp = st })
      → Effect owner i f g o n

joins-Effect :
    (owner : Ptr → ℕ) (i tid : ℕ) (t : Task)
    → Effect owner i t.threads t.threads running (thr_join i tid t)
unfolding thr_join
joins-Effect owner i tid t = elim (Bool-cases (i == tid)) [
  | inl e ↦ rw (thr_join, e) (idles refl refl (λ h. cc) refl)
  | inr e ↦ elim (Option-cases (search_thread_by_id tid t.thread_list)) [
    | inl absent ↦ rw (thr_join, e, absent) (idles refl refl (λ h. cc) refl)
    | inr (p, there) ↦ rw (thr_join, e, there) (idles refl refl (λ h. cc) refl)
  ]
]

exits-Effect :
    (owner : Ptr → ℕ) (busy : Ptr → Bool) (i st : ℕ) (t : Task)
    → AllOwned owner t.thread_list
    → Effect owner i t.threads (thr_exit busy i st t).1.threads running (thr_exit busy i st t).0
unfolding thr_exit
exits-Effect owner busy i st t own = elim (Bool-cases t.single_threaded) [
  | inl single ↦ rw (thr_exit, single) (idles refl refl (λ h. refl) refl)
  | inr many ↦ elim (Bool-cases (count_running t.threads t.thread_list == 1)) [
    | inl last ↦
        let t' : Task = record t { single_threaded = false } in
        let (end, same, part) = exit_last-threads owner busy i t' own in
        rw (thr_exit, many, last)
          (elim end [
            | inl e ↦ idles (rw e refl) (rw e refl) (λ h. cc) same
            | inr e ↦ idles (rw e refl) (rw e refl) (λ h. cc) same
          ])
    | inr e ↦ elim (Option-cases (search_thread_by_id i t.thread_list)) [
      | inl absent ↦ rw (thr_exit, many, e, absent) (idles refl refl (λ h. cc) refl)
      | inr (p, there) ↦
          rw (thr_exit, many, e, there)
            (leaves p st refl refl (search-AllOwned owner i p t.thread_list own there) refl)
    ]
  ]
]

-- The test of the loop keeps the target, and goes on with the status of a thread that has exited.
check_lem :
    (tid p : ℕ) (t : Task)
    → (target (join_check tid p t) ≡ some p)
      × (leaver (join_check tid p t) ≡ none)
      × Collected t.threads (join_check tid p t)
unfolding join_check
check_lem tid p t = elim (Bool-cases ((t.threads p).status == thread_exit)) [
  | inl e ↦ rw (join_check, e) (refl, refl, (ground arith, refl))
  | inr e ↦ rw (join_check, e) (refl, refl, tt)
]

pub advance-Effect :
    (owner : Ptr → ℕ) (busy : Ptr → Bool) (i : ℕ) (t : Task) (o : Stage)
    → Collected t.threads o
    → Effect owner i t.threads (advance busy i t o).1.threads o (advance busy i t o).0
unfolding advance join_claim join_check exit_mark thr_reap destroy_locks
advance-Effect owner busy i t running got = idles refl refl (λ h. h) refl
advance-Effect owner busy i t gone got = idles refl refl (λ h. h) refl
advance-Effect owner busy i t ended got = idles refl refl (λ h. h) refl
advance-Effect owner busy i t crashed got = idles refl refl (λ h. h) refl
advance-Effect owner busy i t (returned result st) got = idles refl refl (λ h. cc) refl
advance-Effect owner busy i t (unlisting tid p st) got = idles refl refl (λ h. cc) refl
advance-Effect owner busy i t (exiting p st) got = marks p st refl refl refl refl refl
advance-Effect owner busy i t (vanishing p) got = idles refl refl (λ h. refl) refl
advance-Effect owner busy i t (reaping tid p st) got = elim (Bool-cases (busy p)) [
  | inl b ↦ rw (advance, thr_reap, destroy_locks, b) (idles refl refl (λ h. refl) refl)
  | inr b ↦ rw (advance, thr_reap, destroy_locks, b) (stays p refl refl refl refl got)
]
advance-Effect owner busy i t (waiting tid p) got =
    let (to, not_leaver, done) = check_lem tid p t in stays p refl to not_leaver refl done
advance-Effect owner busy i t (found tid p) got =
    let joining = (t.threads p).joining_tid in
    elim (Bool-cases (ltb 0 joining && ltb joining (2 ^ 31))) [
      | inl e ↦ rw (advance, join_claim, e) (idles refl refl (λ h. cc) refl)
      | inr e ↦
          let t' : Task = record t {
            threads = update t.threads p (record (t.threads p) { joining_tid = i });
          } in
          let (to, not_leaver, done) = check_lem tid p t' in
          rw (advance, join_claim, e) (claims tid p refl e to not_leaver refl done)
    ]

pub begin-Effect :
    (owner : Ptr → ℕ) (busy : Ptr → Bool) (i : ℕ) (c : Call) (t : Task)
    → AllOwned owner t.thread_list
    → Effect owner i t.threads (begin busy i c t).1.threads running (begin busy i c t).0
unfolding begin
begin-Effect owner busy i (join tid) t own = joins-Effect owner i tid t
begin-Effect owner busy i (exit st) t own = exits-Effect owner busy i st t own
