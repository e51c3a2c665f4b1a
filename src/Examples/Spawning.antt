-- ===== src/Examples/Spawning.antt =====
-- Two calls of `thread_fork` in the thread 40, and a thread that the kernel makes.
use p.Base.{◌≡◌, refl, [], ◌∷◌, arith, ◌*◌}
use p.Create.{thr_init, thr_create}
use p.Create.Queued.{IsCreated, thr_init-Queues, thr_create-Queued}
use p.Spawn.{Machine, Fresh, sys_thread_fork}
use p.Spawn.Child.{IsLast, IsFresh, store_of}
use p.Spawn.Second.{both, second_fork_loses}
use p.Examples.Endings.{world, world-CanSwitch}

abbrev machine : Machine
machine = record {
  world = world;
  registers = λ q. record {
    ds = 43;
    es = 43;
    fs = 43;
    gs = 43;
    edi = 0;
    esi = 0;
    ebp = 0;
    ebx = 0;
    edx = 0;
    ecx = 0;
    eax = 0;
    eip = 0;
    cs = 35;
    eflags = 512;
    esp = 0;
    ss = 43;
  };
  stack_base = λ q. q * 8192;
  stack_size = λ q. 4096;
  esp = λ q. 0;
  next_tid = 9;
  memory = λ a. a;
}

abbrev first_child : Fresh
first_child = record { thread_list_node = 50; peer_threads_node = 55; stack_base = 65536 }

abbrev second_child : Fresh
second_child = record { thread_list_node = 60; peer_threads_node = 65; stack_base = 73728 }

machine-IsLast : IsLast machine 45 (10 ∷ 20 ∷ []) (30 ∷ [])
machine-IsLast = record {
  last = refl;
  set = omega arith;
  not_local = omega arith;
  not_queue = omega arith;
  not_blocked = refl;
  not_runnable = refl;
}

first-IsFresh : IsFresh machine first_child 45 (10 ∷ 20 ∷ []) (30 ∷ [])
first-IsFresh = record {
  child = record { real = omega arith; not_blocked = refl; not_runnable = refl };
  not_current = omega arith;
  peer_set = omega arith;
  two = omega arith;
  not_last = omega arith;
  last_other = omega arith;
  not_blocked = refl;
  not_runnable = refl;
}

second-IsFresh :
    IsFresh (sys_thread_fork first_child machine).1 second_child 45 (10 ∷ 20 ∷ []) (30 ∷ 50 ∷ [])
unfolding sys_thread_fork
second-IsFresh = record {
  child = record { real = omega arith; not_blocked = refl; not_runnable = refl };
  not_current = omega arith;
  peer_set = omega arith;
  two = omega arith;
  not_last = omega arith;
  last_other = omega arith;
  not_blocked = refl;
  not_runnable = refl;
}

second_fork_loses_example :
    ((store_of (both first_child second_child machine)).next 45 ≡ 65)
    × ((store_of (both first_child second_child machine)).next 65 ≡ 0)
    × ((store_of (both first_child second_child machine)).head 5 ≡ 45)
    × ((store_of (both first_child second_child machine)).tail 5 ≡ 45)
    × ((store_of (both first_child second_child machine)).length 5 ≡ 1)
second_fork_loses_example =
    second_fork_loses machine first_child second_child 45 (10 ∷ 20 ∷ []) (30 ∷ []) machine-IsLast
      first-IsFresh world-CanSwitch.queues (omega arith) second-IsFresh

-- Behind `thr_init`, the first thread of a program that begins at 0x01000000.
thr_create-Queued_example :
    IsCreated
      (thr_init machine)
      (thr_create first_child 518 0x01000000 0 (thr_init machine))
      first_child
      0x01000000
      []
      []
thr_create-Queued_example =
    thr_create-Queued first_child 518 0x01000000 (thr_init machine) [] [] (thr_init-Queues machine)
      (record { real = omega arith; not_blocked = refl; not_runnable = refl }) (omega arith)
