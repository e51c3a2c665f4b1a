-- ===== src/Vanish/Steps.antt =====
-- The parts of `vanish`: counting and reaping threads, and the report to the parent.
use p.Base.{
  ℕ, ◌+◌, ◌≡◌, refl, sym, ap, ◌∙◌, ◌≢◌, false, List, [], ◌∷◌, ◌++◌, arith, ◌==◌, has, Bool,
  ne→==-false, ==_refl, Disjoint, Bool-cases, inl, inr,
}
use p.LinkedList.{Ptr, null, Store}
use p.LinkedList.Shape.{IsList, IsList-frame}
use p.Kernel.{
  Kernel, Tcb, ThreadState, ok, runnable, blocked_queue_lock, runnable_queue_lock, process_queue,
  tcb_mutex, set_state,
}
use p.Sched.Search.{search-Links}
use p.Sched.Wake.{waked}
use p.Thread.Locks.{Quiet, change-Quiet}
use p.Thread.MakeRunnable.{stage, unlink, append}
use p.Process.{World, own_process, has_exited}
use p.Vanish.{
  local_threads, copy_list, is_exit, is_waiting, count_live, reap_peers, wake_up, report,
  live_count, ended,
}

-- `wake_up` with no mutex in its way.
abbrev pub woken : Ptr → Kernel → Kernel
woken x k =
    stage runnable_queue_lock (append x)
      (stage (tcb_mutex x) (set_state x runnable) (stage blocked_queue_lock (unlink x) k))

pub wake_up-Quiet :
    (x : Ptr) (k : Kernel) (ls : List ℕ)
    → Quiet k.mutex ls
    → has blocked_queue_lock ls ≡ false
    → has (tcb_mutex x) ls ≡ false
    → has runnable_queue_lock ls ≡ false
    → (wake_up x k ≡ ok tt (woken x k)) × Quiet (woken x k).mutex ls
unfolding wake_up
wake_up-Quiet x k ls q hb hx hr =
    let k1 = stage blocked_queue_lock (unlink x) k in
    let (e1, q1) = change-Quiet blocked_queue_lock (unlink x) k ls q hb refl in
    let k2 = stage (tcb_mutex x) (set_state x runnable) k1 in
    let (e2, q2) = change-Quiet (tcb_mutex x) (set_state x runnable) k1 ls q1 hx refl in
    let (e3, q3) = change-Quiet runnable_queue_lock (append x) k2 ls q2 hr refl in
    (rw (e1, e2, e3) refl, q3)

pub copy-frame :
    (to from l : Ptr) (m : Store) (xs : List Ptr)
    → l ≢ to
    → IsList m l xs
    → IsList (copy_list to from m) l xs
copy-frame to from l m xs ne is =
    let other = ne→==-false l to ne in
    IsList-frame m (copy_list to from m) l xs is (rw other (refl, refl, refl)) (λ x h. (refl, refl))

-- A process whose only thread is the running one, in the process queue between `us` and `vs`.
pub record IsSingle (w : World) (p : Ptr) (bs rs us vs : List Ptr) : Type 0 where
  pub threads : IsList w.kernel.store (w.pcb (own_process w)).threads (p ∷ [])
  pub self : w.peer p ≡ w.kernel.current
  pub alive : is_exit (w.kernel.tcb w.kernel.current).state ≡ false
  pub listed :
      IsList w.kernel.store process_queue (us ++ ((w.pcb (own_process w)).all_processes_node ∷ vs))
  pub blocked_apart : Disjoint bs (us ++ ((w.pcb (own_process w)).all_processes_node ∷ vs))
  pub runnable_apart : Disjoint rs (us ++ ((w.pcb (own_process w)).all_processes_node ∷ vs))

-- Its parent, which has not exited, with the threads that the nodes `ts` are in.
pub record IsAwaited (w : World) (ts us vs : List Ptr) : Type 0 where
  pub set : (w.pcb (own_process w)).parent ≢ null
  pub other : (w.pcb (own_process w)).parent ≢ own_process w
  pub alive : has_exited (w.pcb (w.pcb (own_process w)).parent) ≡ false
  pub threads : IsList w.kernel.store (w.pcb (w.pcb (own_process w)).parent).threads ts
  pub not_local : (w.pcb (w.pcb (own_process w)).parent).threads ≢ local_threads
  pub not_processes : (w.pcb (w.pcb (own_process w)).parent).threads ≢ process_queue
  pub apart : Disjoint ts (us ++ ((w.pcb (own_process w)).all_processes_node ∷ vs))

-- The threads of the parent that wait, of which a search finds the first.
abbrev pub waiting_in : World → List Ptr → List Ptr
waiting_in w ts = waked (λ n. is_waiting (w.kernel.tcb (w.peer n)).state) ts

pub single-live :
    (w : World) (p : Ptr) (bs rs us vs : List Ptr) → IsSingle w p bs rs us vs → live_count w ≡ 1
unfolding count_live
single-live w p bs rs us vs is =
    let real = is.threads.links.0 in
    rw
      (
        is.threads.length,
        is.threads.head,
        ne→==-false p null real,
        is.threads.links.2,
        is.self,
        is.alive,
      )
      refl

pub reap_peers_self :
    (other : Ptr → Bool) (fuel start p : Ptr) (m : Store)
    → fuel ≡ 2
    → start ≡ p
    → m.next p ≡ null
    → other p ≡ false
    → reap_peers other fuel start m ≡ m
unfolding reap_peers
reap_peers_self other fuel start p m two at e o =
    rw (two, at, o, e) (elim (Bool-cases (p == null)) [ inl a ↦ rw a refl | inr a ↦ rw a refl ])

-- In a state `k` with the threads' states as they were and the parent's threads in order.
pub report-wakes :
    (w : World) (k : Kernel) (ts us vs : List Ptr) (n : Ptr) (ns : List Ptr)
    → IsAwaited w ts us vs
    → k.tcb ≡ w.kernel.tcb
    → IsList k.store (w.pcb (w.pcb (own_process w)).parent).threads ts
    → waiting_in w ts ≡ n ∷ ns
    → n ≢ null
    → report (ended w) k ≡ wake_up (w.peer n) k
unfolding report
report-wakes w k ts us vs n ns aw same is e real =
    let own = own_process w in
    let parent = (w.pcb own).parent in
    let l = (w.pcb parent).threads in
    let found =
      search-Links (λ n. is_waiting (w.kernel.tcb (w.peer n)).state) k.store (k.store.length l + 1)
        null ts is.links (omega (arith, is.length)) in
    rw
      (
        ==_refl own,
        ne→==-false parent own aw.other,
        ne→==-false parent null aw.set,
        aw.alive,
        same,
        is.head,
        found,
        e,
        ne→==-false n null real,
      )
      refl

-- A change of a thread's state changes no other field.
pub set_state-field :
    (f : Tcb → ℕ) (p : Ptr) (st : ThreadState) (k : Kernel) (a : Ptr)
    → ((t : Tcb) (st : ThreadState) → f (record t { state = st }) ≡ f t)
    → f ((set_state p st k).tcb a) ≡ f (k.tcb a)
set_state-field f p st k a same = elim (Bool-cases (a == p)) [
  | inl here ↦
      let at : a ≡ p = ground (arith, here) in
      rw here (same (k.tcb p) st ∙ ap (λ x. f (k.tcb x)) (sym at))
  | inr other ↦ rw other refl
]
