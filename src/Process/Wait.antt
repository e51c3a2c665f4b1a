-- ===== src/Process/Wait.antt =====
-- `wait` without a child that has exited.
use p.Base.{
  ℕ, ◌≡◌, refl, sym, ◌∙◌, ◌≢◌, length, true, false, List, [], ◌∷◌, ◌++◌, arith, ◌==◌, not, ◌&&◌,
  ◌||◌, ne→==-false,
}
use p.LinkedList.{Ptr}
use p.Kernel.{Kernel, ok, waiting, deschedule_lock, tcb_mutex, set_state}
use p.Sched.Wake.{waked, asleep, due_in}
use p.Sched.Switch.{CanSwitch, Switched}
use p.Paging.{is_user_addr}
use p.Thread.Locks.{Quiet, locked, released, change-Quiet}
use p.Thread.GiveUp.{give_up}
use p.Process.{World, own_process, sleeps, wait_start}
use p.Process.Reap.{IsParent, exited_in, find_exited-first}

length_ne : (xs : List Ptr) → xs ≢ [] → length xs ≢ 0
length_ne [] h e = h refl
length_ne (x ∷ xs) h e = omega (arith, e)

abbrev waited : Kernel → Kernel
waited k = let l = tcb_mutex k.current in released l (set_state k.current waiting (locked l k))

-- For a null or valid pointer, and a process with at least one child, all counted, and none
-- that has exited, with the queues in order, the running thread in neither, no mutex held or
-- waited for, the queues shorter than 2 ^ 32 - 3 together, and the runnable threads followed by
-- the sleeper that wakes (if any) being y and then ys: sys_wait comes to the switch in which y
-- takes over the processor, the runnable queue is ys, and the caller is the last of the blocked
-- queue.
pub wait_start-Switched :
    (status_ptr : ℕ) (w : World) (cs bs rs : List Ptr) (y : Ptr) (ys : List Ptr)
    → (status_ptr == 0) || is_user_addr status_ptr ≡ true
    → IsParent w cs
    → cs ≢ []
    → exited_in w cs ≡ []
    → Quiet w.kernel.mutex []
    → CanSwitch w.kernel bs rs
    → rs ++ waked (due_in w.kernel) bs ≡ y ∷ ys
    → (k' : Kernel) × (wait_start status_ptr w ≡ sleeps (ok tt k'))
      × Switched w.kernel k' y (asleep (due_in w.kernel) bs ++ (w.kernel.current ∷ [])) ys
unfolding wait_start
wait_start-Switched status_ptr w cs bs rs y ys valid is some_child none_exited q can e =
    let k = w.kernel in
    let c = k.current in
    let bad : not (status_ptr == 0) && not (is_user_addr status_ptr) ≡ false =
      ground (arith, valid) in
    let counted : (w.pcb (own_process w)).children_count ≢ 0 =
      λ e. length_ne cs some_child (sym is.count ∙ e) in
    let (r, q1) = change-Quiet (tcb_mutex c) (set_state c waiting) k [] q refl refl in
    let (k', e', s) =
      give_up k (waited k) (record (k.tcb c) { state = waiting }) waiting bs rs y ys
        (record {
          store = refl;
          current = refl;
          ticks = refl;
          threads = refl;
          state = refl;
          pd = refl;
          stack_top = refl;
          calm = q1.calm deschedule_lock;
        })
        can e in
    (
      k',
      rw
          (
            bad,
            ne→==-false (w.pcb (own_process w)).children_count 0 counted,
            find_exited-first w cs is,
            none_exited,
            r,
            e',
          )
          refl,
      s,
    )
