-- ===== src/Examples/Threads.antt =====
-- A kernel with two sleeping threads, a runnable one and a running one.
use p.Base.{ℕ, ◌≡◌, refl, true, [], ◌∷◌, arith, if◌then◌else◌, ◌==◌, some}
use p.Kernel.{Kernel, Tcb, sleeping, runnable, running, minus_one, ok}
use p.Kernel.Queues.{Queues}
use p.Sched.{schedule, wake_sleepers}
use p.Sched.Wake.{Woken, wake_sleepers-Woken}
use p.Sched.Switch.{CanSwitch, Switched}
use p.Sched.Schedule.{schedule-Switched, schedule_tid-Switched}
use p.Sched.Idle.{NoneReady}
use p.Examples.Lists.{two_queues, first_IsList, second_IsList, second_apart}

-- Both sleeping threads were due at tick 15.
abbrev pub threads : ℕ → Tcb
threads q =
    if q == 10
    then record {
      tid = 4;
      state = sleeping;
      start_ticks = 10;
      duration = 5;
      pd = 4096;
      stack_top = 8192;
    }
    else if q == 20
    then record {
      tid = 5;
      state = sleeping;
      start_ticks = 10;
      duration = 5;
      pd = 4096;
      stack_top = 8192;
    }
    else if q == 30
    then record {
      tid = 6;
      state = runnable;
      start_ticks = 0;
      duration = 0;
      pd = 12288;
      stack_top = 16384;
    }
    else record {
      tid = 7;
      state = running;
      start_ticks = 0;
      duration = 0;
      pd = 20480;
      stack_top = 24576;
    }

abbrev pub kernel : Kernel
kernel = record {
  store = two_queues;
  tcb = threads;
  current = 40;
  ticks = 100;
  mutex = λ l. record { status = 0; tid = minus_one; waiters = 0 };
  interrupts = true;
  cr3 = 20480;
  esp0 = 24576;
}

pub queues : Queues two_queues (10 ∷ 20 ∷ []) (30 ∷ [])
queues = record {
  blocked = first_IsList;
  runnable = second_IsList;
  apart = second_apart;
  small = omega arith;
}

pub can_switch : CanSwitch kernel (10 ∷ 20 ∷ []) (30 ∷ [])
can_switch = record {
  queues = queues;
  outside = record { real = omega arith; not_blocked = refl; not_runnable = refl };
  room = omega arith;
  free = refl;
}

wake_sleepers-Woken_example :
    (k' : Kernel) × (wake_sleepers kernel ≡ some k') × Woken kernel k' (10 ∷ 20 ∷ []) (30 ∷ [])
wake_sleepers-Woken_example = wake_sleepers-Woken kernel (10 ∷ 20 ∷ []) (30 ∷ []) queues

-- Thread 30 takes over; 10 has become runnable, and 40 has joined behind it.
schedule-Switched_example :
    (k' : Kernel) × (schedule minus_one kernel ≡ ok tt k')
    × Switched kernel k' 30 (20 ∷ []) (10 ∷ 40 ∷ [])
schedule-Switched_example =
    schedule-Switched kernel (10 ∷ 20 ∷ []) (30 ∷ []) 30 (10 ∷ []) can_switch refl

-- `schedule` to thread 10, which has the id 4 and wakes in the same call.
schedule_tid-Switched_example :
    (k' : Kernel) × (schedule 4 kernel ≡ ok tt k') × Switched kernel k' 10 (20 ∷ []) (30 ∷ 40 ∷ [])
schedule_tid-Switched_example =
    schedule_tid-Switched 4 kernel (10 ∷ 20 ∷ []) (30 ∷ []) 10 [] (omega arith) can_switch refl

-- No thread is in a queue.
abbrev alone : ℕ → Kernel
alone tid = record kernel {
  store = record { prev = λ q. 0; next = λ q. 0; length = λ q. 0; head = λ q. 0; tail = λ q. 0 };
  tcb = λ q. record {
    tid = tid;
    state = running;
    start_ticks = 0;
    duration = 0;
    pd = 20480;
    stack_top = 24576;
  };
}

alone-NoneReady : (tid : ℕ) → NoneReady (alone tid) []
alone-NoneReady tid = record {
  queues = record {
    blocked = record { head = refl; tail = refl; length = refl; links = tt; distinct = tt };
    runnable = record { head = refl; tail = refl; length = refl; links = tt; distinct = tt };
    apart = λ a h. ground arith;
    small = omega arith;
  };
  nobody = refl;
}
