-- ===== src/Spawn/Child.antt =====
-- The child of `thread_fork`, and the process's list of threads.
use p.Base.{
  ◌+◌, ◌<◌, ◌^◌, ◌%◌, ◌≡◌, refl, sym, ◌∙◌, ◌≢◌, false, List, [], ◌∷◌, ◌++◌, arith, has, ne→==-false,
  ==_refl, length, has-append,
}
use p.LinkedList.{Ptr, null, Store, list_insert_last}
use p.LinkedList.Shape.{IsList}
use p.LinkedList.Insert.{CanInsert}
use p.Kernel.{init, runnable_queue, blocked_queue}
use p.Kernel.Queues.{Queues, Outside, resume-Queues}
use p.Process.{own_process}
use p.Vanish.{local_threads}
use p.Spawn.{Machine, Fresh, own_registers, sys_thread_fork}
use p.Spawn.Peers.{
  grown, grown-frame, grown-next, grown-header, insert_last-elsewhere, insert_last-header,
}

abbrev pub threads_of : Machine → Ptr
threads_of s = (s.world.pcb (own_process s.world)).threads

abbrev pub store_of : Machine → Store
store_of s = s.world.kernel.store

-- Node `t` is the last of the process's list of threads, as its header has it.
pub record IsLast (s : Machine) (t : Ptr) (bs rs : List Ptr) : Type 0 where
  pub last : (store_of s).tail (threads_of s) ≡ t
  pub set : t ≢ null
  pub not_local : threads_of s ≢ local_threads
  pub not_queue : threads_of s ≢ runnable_queue
  pub not_blocked : has t bs ≡ false
  pub not_runnable : has t rs ≡ false

-- The two nodes of a new control block.
pub record IsFresh (s : Machine) (fresh : Fresh) (t : Ptr) (bs rs : List Ptr) : Type 0 where
  pub child : Outside fresh.thread_list_node bs rs
  pub not_current : s.world.kernel.current ≢ fresh.thread_list_node
  pub peer_set : fresh.peer_threads_node ≢ null
  pub two : fresh.peer_threads_node ≢ fresh.thread_list_node
  pub not_last : fresh.peer_threads_node ≢ t
  pub last_other : t ≢ fresh.thread_list_node
  pub not_blocked : has fresh.peer_threads_node bs ≡ false
  pub not_runnable : has fresh.peer_threads_node rs ≡ false

-- A thread keeps its control block, its process and its kernel stack.
pub record IsKept (s s' : Machine) (a : Ptr) : Type 0 where
  pub tcb : s'.world.kernel.tcb a ≡ s.world.kernel.tcb a
  pub process : s'.world.process a ≡ s.world.process a
  pub base : s'.stack_base a ≡ s.stack_base a
  pub size : s'.stack_size a ≡ s.stack_size a
  pub esp : s'.esp a ≡ s.esp a

pub record Forked (s s' : Machine) (fresh : Fresh) (t : Ptr) (bs rs : List Ptr) : Type 0 where
  pub queues : Queues (store_of s') bs (rs ++ (fresh.thread_list_node ∷ []))
  pub tid : (s'.world.kernel.tcb fresh.thread_list_node).tid ≡ s.next_tid
  pub state : (s'.world.kernel.tcb fresh.thread_list_node).state ≡ init
  pub process : s'.world.process fresh.thread_list_node ≡ own_process s.world
  pub others : (a : Ptr) → a ≢ fresh.thread_list_node → IsKept s s' a
  pub other_registers :
      (a : Ptr)
      → a ≢ fresh.thread_list_node
      → a ≢ s.world.kernel.current
      → s'.registers a ≡ s.registers a
  pub stack : s'.stack_base fresh.thread_list_node ≡ fresh.stack_base
  pub stack_size : s'.stack_size fresh.thread_list_node ≡ s.stack_size s.world.kernel.current
  pub top :
      (s'.world.kernel.tcb fresh.thread_list_node).stack_top
      ≡ (fresh.stack_base + s.stack_size s.world.kernel.current) % 2 ^ 32
  pub pcb : s'.world.pcb ≡ s.world.pcb
  pub child_registers : s'.registers fresh.thread_list_node ≡ record (own_registers s) { eax = 0 }
  pub own_registers :
      s'.registers s.world.kernel.current ≡ record (own_registers s) { eax = s.next_tid }
  pub next_tid : s'.next_tid ≡ (s.next_tid + 1) % 2 ^ 32
  pub behind : (store_of s').next t ≡ fresh.peer_threads_node
  pub end : (store_of s').next fresh.peer_threads_node ≡ null
  pub head : (store_of s').head (threads_of s) ≡ (store_of s).head (threads_of s)
  pub tail : (store_of s').tail (threads_of s) ≡ (store_of s).tail (threads_of s)
  pub length : (store_of s').length (threads_of s) ≡ (store_of s).length (threads_of s)

module _ (s : Machine) (fresh : Fresh) (t : Ptr) (bs rs : List Ptr) (is : IsLast s t bs rs)
    (new : IsFresh s fresh t bs rs) (queues : Queues (store_of s) bs rs)
    (room : length bs + length rs + 3 < 2 ^ 32) where
  abbrev child : Ptr
  child = fresh.thread_list_node

  abbrev peer : Ptr
  peer = fresh.peer_threads_node

  abbrev mid : Store
  mid = grown (store_of s) (threads_of s) peer t is.last is.set new.peer_set is.not_local

  mid_list :
      (l : Ptr) (ws : List Ptr)
      → l ≢ local_threads
      → has peer ws ≡ false
      → has t ws ≡ false
      → IsList (store_of s) l ws
      → IsList mid l ws
  mid_list l ws ne op ot ls =
      grown-frame (store_of s) (threads_of s) peer t is.last is.set new.peer_set is.not_local l ws
        ne op ot ls

  mid-Queues : Queues mid bs rs
  mid-Queues = record {
    blocked = mid_list blocked_queue bs (omega arith) new.not_blocked is.not_blocked queues.blocked;
    runnable =
        mid_list runnable_queue rs (omega arith) new.not_runnable is.not_runnable queues.runnable;
    apart = queues.apart;
    small = queues.small;
  }

  can : CanInsert runnable_queue child rs
  can = record {
    list_set = omega arith;
    node_set = new.child.real;
    fresh = new.child.not_runnable;
    room = omega (arith, room);
  }

  next_kept :
      (x : Ptr)
      → has x (child ∷ rs) ≡ false
      → (list_insert_last runnable_queue child mid).next x ≡ mid.next x
  next_kept x out = insert_last-elsewhere mid runnable_queue child rs x mid-Queues.runnable can out

  pub sys_thread_fork-Forked :
      ((sys_thread_fork fresh s).0 ≡ s.next_tid)
      × Forked s (sys_thread_fork fresh s).1 fresh t bs rs
  unfolding sys_thread_fork
  sys_thread_fork-Forked =
      let ends =
        grown-next (store_of s) (threads_of s) peer t is.last is.set new.peer_set is.not_local
          new.not_last in
      let own =
        grown-header (store_of s) (threads_of s) peer t is.last is.set new.peer_set is.not_local in
      let far =
        insert_last-header mid runnable_queue child (threads_of s) (omega arith) new.child.real
          is.not_queue in
      let self = ==_refl child in
      (
        refl,
        record {
          queues = resume-Queues mid child bs rs mid-Queues new.child room;
          tid = rw self refl;
          state = rw self refl;
          process = rw self refl;
          others = λ a ne.
              let off = ne→==-false a child ne in
              record {
                tcb = rw off refl;
                process = rw off refl;
                base = rw off refl;
                size = rw off refl;
                esp = rw off refl;
              };
          other_registers = λ a ne ne'.
              rw (ne→==-false a child ne, ne→==-false a s.world.kernel.current ne') refl;
          stack = rw self refl;
          stack_size = rw self refl;
          top = rw self refl;
          pcb = refl;
          child_registers =
              rw (ne→==-false child s.world.kernel.current (λ e. new.not_current (sym e)), self)
                refl;
          own_registers = rw (==_refl s.world.kernel.current) refl;
          next_tid = refl;
          behind = next_kept t (ground (arith, new.last_other, is.not_runnable)) ∙ ends.0;
          end = next_kept peer (ground (arith, new.two, new.not_runnable)) ∙ ends.1;
          head = far.0 ∙ own.0;
          tail = far.1 ∙ own.1;
          length = far.2 ∙ own.2;
        },
      )

  same_process : own_process (sys_thread_fork fresh s).1.world ≡ own_process s.world
  unfolding sys_thread_fork
  same_process = rw (ne→==-false s.world.kernel.current child new.not_current) refl

  pub same_threads : threads_of (sys_thread_fork fresh s).1 ≡ threads_of s
  unfolding sys_thread_fork
  same_threads = rw same_process refl

  -- The next call finds the process's list as this one has found it.
  pub sys_thread_fork-IsLast : IsLast (sys_thread_fork fresh s).1 t bs (rs ++ (child ∷ []))
  sys_thread_fork-IsLast = record {
    last = rw same_threads (sys_thread_fork-Forked.1.tail ∙ is.last);
    set = is.set;
    not_local = rw same_threads is.not_local;
    not_queue = rw same_threads is.not_queue;
    not_blocked = is.not_blocked;
    not_runnable = ground (arith, is.not_runnable, new.last_other, has-append t rs (child ∷ []));
  }
