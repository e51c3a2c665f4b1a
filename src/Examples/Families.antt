-- ===== src/Examples/Families.antt =====
-- A process with two children.
use p.Base.{◌+◌, ◌≡◌, refl, [], ◌∷◌, arith, if◌then◌else◌, ◌==◌}
use p.LinkedList.{Store}
use p.Kernel.{Kernel, ok}
use p.Paging.{Vm}
use p.Sched.Switch.{CanSwitch, Switched}
use p.Process.{ProcessState, World, exited, running, sleeps, wait_start}
use p.Process.Reap.{IsParent}
use p.Process.Wait.{wait_start-Switched}
use p.Examples.Lists.{second_apart}
use p.Examples.Threads.{kernel, can_switch}
use p.Examples.Calls.{quiet}
use p.Examples.Pages.{one_page}

-- List 1 holds the nodes 10 and 20, list 2 the node 30, and list 4 the processes 50 and 60.
abbrev store : Store
store = record {
  prev = λ q. if q == 20 then 10 else if q == 60 then 50 else 0;
  next = λ q. if q == 10 then 20 else if q == 50 then 60 else 0;
  length = λ q. if q == 1 then 2 else if q == 2 then 1 else if q == 4 then 2 else 0;
  head = λ q. if q == 1 then 10 else if q == 2 then 30 else if q == 4 then 50 else 0;
  tail = λ q. if q == 1 then 20 else if q == 2 then 30 else if q == 4 then 60 else 0;
}

-- The running thread's process is 70, and `state` is the state of its second child.
abbrev family : ProcessState → World
family state = record {
  kernel = record kernel { store = store };
  pcb = λ q. record {
    pid = q;
    state = if q == 60 then state else running;
    return_state = if q == 60 then 17 else 0;
    parent = 0;
    threads = 5;
    children = if q == 70 then 4 else 0;
    all_processes_node = q + 1;
    children_count = if q == 70 then 2 else 0;
    pd = 4096;
  };
  process = λ t. 70;
  peer = λ n. n;
  vm = one_page;
}

family-IsParent : (state : ProcessState) → IsParent (family state) (50 ∷ 60 ∷ [])
family-IsParent state = record {
  set = omega arith;
  children = record {
    head = refl;
    tail = refl;
    length = refl;
    links = (omega arith, refl, refl, (omega arith, refl, refl, tt));
    distinct = (refl, (refl, tt));
  };
  small = omega arith;
  count = refl;
}

family-CanSwitch : CanSwitch (family running).kernel (10 ∷ 20 ∷ []) (30 ∷ [])
family-CanSwitch = record {
  queues = record {
    blocked = record {
      head = refl;
      tail = refl;
      length = refl;
      links = (omega arith, refl, refl, (omega arith, refl, refl, tt));
      distinct = (refl, (refl, tt));
    };
    runnable = record {
      head = refl;
      tail = refl;
      length = refl;
      links = (omega arith, refl, refl, tt);
      distinct = (refl, tt);
    };
    apart = second_apart;
    small = omega arith;
  };
  outside = can_switch.outside;
  room = omega arith;
  free = refl;
}

-- The child's only page, number 5123, is in frame 9, which has that one reference.
abbrev counted : Vm
counted = record one_page {
  frames = record one_page.frames { refcount = λ f. if f == 9 then 1 else 0 };
}

abbrev reapable : World
reapable = record (family exited) { vm = counted }

-- Thread 30 takes over; 10 has woken, and the caller is blocked behind 20.
wait_start-Switched_example :
    (k' : Kernel) × (wait_start 0 (family running) ≡ sleeps (ok tt k'))
    × Switched (family running).kernel k' 30 (20 ∷ 40 ∷ []) (10 ∷ [])
wait_start-Switched_example =
    wait_start-Switched 0 (family running) (50 ∷ 60 ∷ []) (10 ∷ 20 ∷ []) (30 ∷ []) 30 (10 ∷ []) refl
      (family-IsParent running) (λ e. ground arith) refl quiet family-CanSwitch refl
