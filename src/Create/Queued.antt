-- ===== src/Create/Queued.antt =====
-- The queues behind `thr_init` and `thr_create`.
use p.Base.{
  ap, ℕ, ◌+◌, ◌-◌, ◌/◌, ◌%◌, ◌^◌, ◌<◌, ◌≡◌, ◌≢◌, refl, List, [], ◌∷◌, ◌++◌, arith, length,
  ne→==-false, ==_refl,
}
use p.LinkedList.{Ptr, list_init}
use p.Kernel.{init, tcb_mutex, mutex_init}
use p.Kernel.Queues.{Queues, Outside, resume-Queues}
use p.Swexn.{user_cs, user_ds}
use p.Spawn.{Machine, Fresh}
use p.Spawn.Child.{IsKept}
use p.Create.{thr_init, thr_create, user_registers}

-- Behind thr_init both queues are empty.
pub thr_init-Queues : (s : Machine) → Queues (thr_init s).world.kernel.store [] []
unfolding thr_init list_init mutex_init
thr_init-Queues s = record {
  blocked = record { head = refl; tail = refl; length = refl; links = tt; distinct = tt };
  runnable = record { head = refl; tail = refl; length = refl; links = tt; distinct = tt };
  apart = λ x h. refl;
  small = omega arith;
}

-- A thread that is ready to enter user mode at `eip`.
pub record IsReady (s : Machine) (q : Ptr) (tid eip : ℕ) : Type 0 where
  pub id : (s.world.kernel.tcb q).tid ≡ tid
  pub state : (s.world.kernel.tcb q).state ≡ init
  pub start : (s.registers q).eip ≡ eip
  pub code : (s.registers q).cs ≡ user_cs
  pub stack : (s.registers q).ss ≡ user_ds
  pub interrupts : (s.registers q).eflags / 2 ^ 9 % 2 ≡ 1
  pub no_alignment : (s.registers q).eflags / 2 ^ 18 % 2 ≡ 0
  pub free : (s.world.kernel.mutex (tcb_mutex q)).status ≡ 0
  pub esp : s.esp q ≡ (s.stack_base q + s.stack_size q + 2 ^ 32 - 4) % 2 ^ 32

-- What a call has done: the thread `n` is new, and all others are as they were.
pub record IsCreated (s s' : Machine) (fresh : Fresh) (eip : ℕ) (bs rs : List Ptr) : Type 0 where
  pub queues : Queues s'.world.kernel.store bs (rs ++ (fresh.thread_list_node ∷ []))
  pub ready : IsReady s' fresh.thread_list_node s.next_tid eip
  pub base : s'.stack_base fresh.thread_list_node ≡ fresh.stack_base
  pub size : s'.stack_size fresh.thread_list_node ≡ 4096
  pub top :
      (s'.world.kernel.tcb fresh.thread_list_node).stack_top ≡ (fresh.stack_base + 4096) % 2 ^ 32
  pub next_tid : s'.next_tid ≡ (s.next_tid + 1) % 2 ^ 32
  pub others : (q : Ptr) → q ≢ fresh.thread_list_node → IsKept s s' q
  pub other_registers : (q : Ptr) → q ≢ fresh.thread_list_node → s'.registers q ≡ s.registers q
  pub mutexes :
      (l : ℕ)
      → l ≢ tcb_mutex fresh.thread_list_node
      → s'.world.kernel.mutex l ≡ s.world.kernel.mutex l

-- When the queues are in order, the new node is in neither and they are shorter than 2 ^ 32 - 3
-- together: thr_create with run = 0 puts the new thread at the end of the runnable queue, ready
-- to enter user mode at eip with interrupts enabled and alignment checks off, under the id
-- next_tid, with its mutex free, on the allocated kernel stack of 4096 bytes, whose top a
-- switch to it loads and 4 below which its stack pointer is; it raises next_tid modulo 2 ^ 32
-- and changes no other thread's control block, registers, process or kernel stack and no other
-- mutex.
pub thr_create-Queued :
    (fresh : Fresh) (flags eip : ℕ) (s : Machine) (bs rs : List Ptr)
    → Queues s.world.kernel.store bs rs
    → Outside fresh.thread_list_node bs rs
    → length bs + length rs + 3 < 2 ^ 32
    → IsCreated s (thr_create fresh flags eip 0 s) fresh eip bs rs
unfolding thr_create user_registers mutex_init
thr_create-Queued fresh flags eip s bs rs qs out room =
    let n = fresh.thread_list_node in
    let self = ==_refl n in
    record {
      queues = resume-Queues s.world.kernel.store n bs rs qs out room;
      ready = record {
        id = rw self refl;
        state = rw self refl;
        start = rw self refl;
        code = rw self refl;
        stack = rw self refl;
        interrupts = rw self (omega arith);
        no_alignment = rw self (omega arith);
        free = rw (==_refl (tcb_mutex n)) refl;
        esp = rw self (ap (λ (x : ℕ). x % 2 ^ 32) (omega arith));
      };
      base = rw self refl;
      size = rw self refl;
      top = rw self refl;
      next_tid = refl;
      others = λ q ne.
          let off = ne→==-false q n ne in
          record {
            tcb = rw off refl;
            process = refl;
            base = rw off refl;
            size = rw off refl;
            esp = rw off refl;
          };
      other_registers = λ q ne. rw (ne→==-false q n ne) refl;
      mutexes = λ l ne. rw (ne→==-false l (tcb_mutex n) ne) refl;
    }
