-- ===== src/Examples/Endings.antt =====
-- The only thread of a process ends while a thread of the parent waits.
use p.Base.{◌≡◌, refl, [], ◌∷◌, arith, if◌then◌else◌, ◌==◌, update}
use p.LinkedList.{Store}
use p.Kernel.{Kernel, ok, waiting}
use p.Sched.Switch.{CanSwitch, Switched}
use p.Process.{World, running}
use p.Vanish.{ended, sys_vanish}
use p.Vanish.Steps.{IsSingle, IsAwaited}
use p.Vanish.Leave.{sys_vanish-Switched}
use p.Examples.Lists.{second_apart}
use p.Examples.Threads.{kernel, threads, can_switch}
use p.Examples.Calls.{quiet}
use p.Examples.Pages.{one_page}

-- List 1 holds the threads 10 and 20, list 2 the thread 30, list 3 the processes 81 and 71, list 5 the
-- thread 40 by its node 45, and list 7 the thread 20 by its node 25.
abbrev store : Store
store = record {
  prev = λ q. if q == 20 then 10 else if q == 71 then 81 else 0;
  next = λ q. if q == 10 then 20 else if q == 81 then 71 else 0;
  length = λ q. if q == 1 then 2 else if q == 3 then 2 else 1;
  head = λ q.
      if q == 1
      then 10
      else if q == 2
      then 30
      else if q == 3
      then 81
      else if q == 5
      then 45
      else 25;
  tail = λ q.
      if q == 1
      then 20
      else if q == 2
      then 30
      else if q == 3
      then 71
      else if q == 5
      then 45
      else 25;
}

-- Process 70 is the child of process 80; thread 20 is in 80, and thread 40 in 70.
abbrev pub world : World
world = record {
  kernel = record kernel {
    store = store;
    tcb = update threads 20 (record (threads 20) { state = waiting });
  };
  pcb = λ q. record {
    pid = q;
    state = running;
    return_state = 17;
    parent = if q == 70 then 80 else 0;
    threads = if q == 70 then 5 else 7;
    children = 8;
    children_count = 0;
    all_processes_node = if q == 70 then 71 else 81;
    pd = 4096;
  };
  process = λ t. if t == 40 then 70 else 80;
  peer = λ n. if n == 45 then 40 else 20;
  vm = one_page;
}

world-IsSingle : IsSingle world 45 (10 ∷ 20 ∷ []) (30 ∷ []) (81 ∷ []) []
world-IsSingle = record {
  threads = record {
    head = refl;
    tail = refl;
    length = refl;
    links = (omega arith, refl, refl, tt);
    distinct = (refl, tt);
  };
  self = refl;
  alive = refl;
  listed = record {
    head = refl;
    tail = refl;
    length = refl;
    links = (omega arith, refl, refl, (omega arith, refl, refl, tt));
    distinct = (refl, (refl, tt));
  };
  blocked_apart = λ a h. ground arith;
  runnable_apart = λ a h. ground arith;
}

world-IsAwaited : IsAwaited world (25 ∷ []) (81 ∷ []) []
world-IsAwaited = record {
  set = omega arith;
  other = omega arith;
  alive = refl;
  threads = record {
    head = refl;
    tail = refl;
    length = refl;
    links = (omega arith, refl, refl, tt);
    distinct = (refl, tt);
  };
  not_local = omega arith;
  not_processes = omega arith;
  apart = λ a h. ground arith;
}

pub world-CanSwitch : CanSwitch world.kernel (10 ∷ 20 ∷ []) (30 ∷ [])
world-CanSwitch = record {
  queues = record {
    blocked = record {
      head = refl;
      tail = refl;
      length = refl;
      links = (omega arith, refl, refl, (omega arith, refl, refl, tt));
      distinct = (refl, (refl, tt));
    };
    runnable = record {
      head = refl;
      tail = refl;
      length = refl;
      links = (omega arith, refl, refl, tt);
      distinct = (refl, tt);
    };
    apart = second_apart;
    small = omega arith;
  };
  outside = can_switch.outside;
  room = omega arith;
  free = refl;
}

-- Thread 30 takes over; 20 has been told, and 10 has woken.
sys_vanish-Switched_example :
    (k' : Kernel) × (sys_vanish world ≡ ((ended world).pcb, ok tt k'))
    × Switched world.kernel k' 30 [] (20 ∷ 10 ∷ [])
sys_vanish-Switched_example =
    sys_vanish-Switched world 45 (10 ∷ []) [] (30 ∷ []) (81 ∷ []) [] (25 ∷ []) [] 25 world-IsSingle
      world-IsAwaited quiet refl (omega arith) 30 (20 ∷ 10 ∷ []) world-CanSwitch refl
