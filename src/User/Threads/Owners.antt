-- ===== src/User/Threads/Owners.antt =====
-- The list's nodes say whose a `thread_t` is, and so does what `thr_join` has found.
use p.Base.{
  ℕ, ◌^◌, ◌≡◌, refl, Bool, ◌⊎◌, not, false, ◌&&◌, some, List, [], ◌∷◌, arith, ◌==◌, ltb, update,
  Bool-cases, Option-cases, inl, inr,
}
use p.LinkedList.{Ptr, null}
use p.User.Threads.{
  Node, Task, Stage, running, gone, ended, crashed, found, waiting, reaping, unlisting, returned,
  exiting, vanishing, thread_exit, list_search, search_thread_by_id, list_delete_id, thr_reap,
  reap_all, given_back, destroy_locks, exit_last, thr_join, join_check, join_claim, thr_exit,
  exit_mark, count_running, Call, join, exit, begin, advance,
}

-- `owner` tells for each `thread_t` whose it is: the list's nodes say so.
abbrev pub AllOwned : (Ptr → ℕ) → List Node → Type 0
AllOwned owner [] = Unit
AllOwned owner (n ∷ ns) = (owner n.thread ≡ n.tid) × AllOwned owner ns

pub search-AllOwned :
    (owner : Ptr → ℕ) (tid p : ℕ) (ns : List Node)
    → AllOwned owner ns
    → search_thread_by_id tid ns ≡ some p
    → owner p ≡ tid
unfolding search_thread_by_id list_search
search-AllOwned owner tid p [] own e = cc
search-AllOwned owner tid p (n ∷ ns) own e =
    ground (arith, own, search-AllOwned owner tid p ns own.1)

pub list_delete_id-AllOwned :
    (owner : Ptr → ℕ) (tid : ℕ) (ns : List Node)
    → AllOwned owner ns
    → AllOwned owner (list_delete_id tid ns)
unfolding list_delete_id
list_delete_id-AllOwned owner tid [] own = own
list_delete_id-AllOwned owner tid (n ∷ ns) own = elim (Bool-cases (n.tid == tid)) [
  | inl e ↦ rw e own.1
  | inr e ↦ rw e (own.0, list_delete_id-AllOwned owner tid ns own.1)
]

-- The last thread's loop changes no `thread_t`, and leaves a part of the list.
reap_all-threads :
    (owner : Ptr → ℕ) (busy : Ptr → Bool) (tid : ℕ) (ns : List Node) (t : Task)
    → AllOwned owner ns
    → ((reap_all busy tid ns t).1.threads ≡ t.threads)
      × AllOwned owner (reap_all busy tid ns t).1.thread_list
unfolding reap_all thr_reap destroy_locks
reap_all-threads owner busy tid [] t own = (refl, tt)
reap_all-threads owner busy tid (n ∷ ns) t own =
    elim (Bool-cases ((t.threads n.thread).tid == tid)) [
      | inl e ↦ elim (Bool-cases (busy n.thread)) [
        | inl b ↦ rw (reap_all, e, destroy_locks, b) (refl, own.1)
        | inr b ↦ rw (reap_all, e, destroy_locks, b) (reap_all-threads owner busy tid ns t own.1)
      ]
      | inr e ↦ elim (Bool-cases (busy n.thread)) [
        | inl b ↦ rw (reap_all, e, thr_reap, destroy_locks, b) (refl, own.1)
        | inr b ↦
            rw (reap_all, e, thr_reap, destroy_locks, b)
              (reap_all-threads owner busy tid ns (given_back n.thread t) own.1)
      ]
    ]

-- The last thread is at its end, whether it has found all locks free or not.
pub exit_last-threads :
    (owner : Ptr → ℕ) (busy : Ptr → Bool) (i : ℕ) (t : Task)
    → AllOwned owner t.thread_list
    → (((exit_last busy i t).0 ≡ ended) ⊎ ((exit_last busy i t).0 ≡ gone))
      × ((exit_last busy i t).1.threads ≡ t.threads)
      × AllOwned owner (exit_last busy i t).1.thread_list
unfolding exit_last
exit_last-threads owner busy i t own =
    let (same, part) = reap_all-threads owner busy i t.thread_list t own in
    elim (Bool-cases ((reap_all busy i t.thread_list t).0 && not (busy null))) [
      | inl e ↦ rw (exit_last, e) (inl refl, same, part)
      | inr e ↦ rw (exit_last, e) (inr refl, same, part)
    ]

-- The `thread_t` that a caller of `thr_join` has found is that of the thread it asked for.
abbrev pub Asked : (Ptr → ℕ) → Stage → Type 0
Asked owner (found tid p) = owner p ≡ tid
Asked owner (waiting tid p) = owner p ≡ tid
Asked owner (reaping tid p st) = owner p ≡ tid
Asked owner (unlisting tid p st) = owner p ≡ tid
Asked owner _ = Unit {0}

exits-AllOwned :
    (owner : Ptr → ℕ) (busy : Ptr → Bool) (i st : ℕ) (t : Task)
    → AllOwned owner t.thread_list
    → AllOwned owner (thr_exit busy i st t).1.thread_list × Asked owner (thr_exit busy i st t).0
unfolding thr_exit
exits-AllOwned owner busy i st t own = elim (Bool-cases t.single_threaded) [
  | inl single ↦ rw (thr_exit, single) (own, tt)
  | inr many ↦ elim (Bool-cases (count_running t.threads t.thread_list == 1)) [
    | inl last ↦
        let t' : Task = record t { single_threaded = false } in
        let (end, same, part) = exit_last-threads owner busy i t' own in
        rw (thr_exit, many, last) (part, elim end [ inl e ↦ rw e tt | inr e ↦ rw e tt ])
    | inr e ↦ elim (Option-cases (search_thread_by_id i t.thread_list)) [
      | inl absent ↦ rw (thr_exit, many, e, absent) (own, tt)
      | inr (p, there) ↦ rw (thr_exit, many, e, there) (own, tt)
    ]
  ]
]

claim-AllOwned :
    (owner : Ptr → ℕ) (i tid p : ℕ) (t : Task)
    → AllOwned owner t.thread_list
    → AllOwned owner (join_claim i tid p t).1.thread_list
unfolding join_claim
claim-AllOwned owner i tid p t own =
    let joining = (t.threads p).joining_tid in
    elim (Bool-cases (ltb 0 joining && ltb joining (2 ^ 31))) [
      | inl h ↦ rw (join_claim, h) own
      | inr h ↦ rw (join_claim, h) own
    ]

pub begin-AllOwned :
    (owner : Ptr → ℕ) (busy : Ptr → Bool) (i : ℕ) (c : Call) (t : Task)
    → AllOwned owner t.thread_list
    → AllOwned owner (begin busy i c t).1.thread_list
unfolding begin
begin-AllOwned owner busy i (join tid) t own = own
begin-AllOwned owner busy i (exit st) t own = (exits-AllOwned owner busy i st t own).0

pub advance-AllOwned :
    (owner : Ptr → ℕ) (busy : Ptr → Bool) (i : ℕ) (t : Task) (o : Stage)
    → AllOwned owner t.thread_list
    → AllOwned owner (advance busy i t o).1.thread_list
unfolding advance thr_reap destroy_locks
advance-AllOwned owner busy i t (unlisting tid p st) own =
    list_delete_id-AllOwned owner tid t.thread_list own
advance-AllOwned owner busy i t (found tid p) own = claim-AllOwned owner i tid p t own
advance-AllOwned owner busy i t (reaping tid p st) own = elim (Bool-cases (busy p)) [
  | inl b ↦ rw (advance, thr_reap, destroy_locks, b) own
  | inr b ↦ rw (advance, thr_reap, destroy_locks, b) own
]
advance-AllOwned owner busy i t (exiting p st) own = unfold exit_mark in own
advance-AllOwned owner busy i t (waiting tid p) own = own
advance-AllOwned owner busy i t (returned result st) own = own
advance-AllOwned owner busy i t running own = own
advance-AllOwned owner busy i t (vanishing p) own = own
advance-AllOwned owner busy i t gone own = own
advance-AllOwned owner busy i t ended own = own
advance-AllOwned owner busy i t crashed own = own

check-Asked :
    (owner : Ptr → ℕ) (tid p : ℕ) (t : Task) → owner p ≡ tid → Asked owner (join_check tid p t)
unfolding join_check
check-Asked owner tid p t e = elim (Bool-cases ((t.threads p).status == thread_exit)) [
  | inl h ↦ rw (join_check, h) e
  | inr h ↦ rw (join_check, h) e
]

pub begin-Asked :
    (owner : Ptr → ℕ) (busy : Ptr → Bool) (i : ℕ) (c : Call) (t : Task)
    → AllOwned owner t.thread_list
    → Asked owner (begin busy i c t).0
unfolding begin
begin-Asked owner busy i (join tid) t own = elim (Bool-cases (i == tid)) [
  | inl e ↦ rw (thr_join, e) tt
  | inr e ↦ elim (Option-cases (search_thread_by_id tid t.thread_list)) [
    | inl absent ↦ rw (thr_join, e, absent) tt
    | inr (p, there) ↦ rw (thr_join, e, there) (search-AllOwned owner tid p t.thread_list own there)
  ]
]
begin-Asked owner busy i (exit st) t own = (exits-AllOwned owner busy i st t own).1

pub advance-Asked :
    (owner : Ptr → ℕ) (busy : Ptr → Bool) (i : ℕ) (t : Task) (o : Stage)
    → Asked owner o
    → Asked owner (advance busy i t o).0
unfolding advance thr_reap destroy_locks
advance-Asked owner busy i t (found tid p) e =
    let joining = (t.threads p).joining_tid in
    elim (Bool-cases (ltb 0 joining && ltb joining (2 ^ 31))) [
      | inl h ↦ rw (advance, join_claim, h) tt
      | inr h ↦
          let t' : Task = record t {
            threads = update t.threads p (record (t.threads p) { joining_tid = i });
          } in
          rw (advance, join_claim, h) (check-Asked owner tid p t' e)
    ]
advance-Asked owner busy i t (waiting tid p) e = check-Asked owner tid p t e
advance-Asked owner busy i t (reaping tid p st) e = elim (Bool-cases (busy p)) [
  | inl b ↦ rw (advance, thr_reap, destroy_locks, b) tt
  | inr b ↦ rw (advance, thr_reap, destroy_locks, b) e
]
advance-Asked owner busy i t (unlisting tid p st) e = tt
advance-Asked owner busy i t (exiting p st) e = tt
advance-Asked owner busy i t (returned result st) e = tt
advance-Asked owner busy i t running e = tt
advance-Asked owner busy i t (vanishing p) e = tt
advance-Asked owner busy i t gone e = tt
advance-Asked owner busy i t ended e = tt
advance-Asked owner busy i t crashed e = tt
