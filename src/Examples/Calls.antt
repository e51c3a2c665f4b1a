-- ===== src/Examples/Calls.antt =====
-- The system calls on threads at concrete states.
use p.Base.{◌≡◌, refl, [], ◌∷◌, arith, update, inl}
use p.Kernel.{Kernel, blocked, ok}
use p.Sched.Switch.{Switched}
use p.Thread.{sys_sleep, sys_make_runnable, sys_yield}
use p.Thread.Locks.{Quiet}
use p.Thread.GiveUp.{sys_sleep-Switched}
use p.Thread.MakeRunnable.{MadeRunnable, sys_make_runnable-MadeRunnable}
use p.Thread.Yield.{Refused, sys_yield-Switched, sys_yield-refuses}
use p.Examples.Threads.{kernel, threads, queues, can_switch}

pub quiet : Quiet kernel.mutex []
quiet = record { calm = λ l. refl; free = λ l h. refl }

-- Thread 40 goes to sleep behind thread 20; 30 takes over, and 10 has woken.
sys_sleep-Switched_example :
    (k' : Kernel) × (sys_sleep 50 kernel ≡ ok 0 k') × Switched kernel k' 30 (20 ∷ 40 ∷ []) (10 ∷ [])
sys_sleep-Switched_example =
    sys_sleep-Switched 50 kernel (10 ∷ 20 ∷ []) (30 ∷ []) 30 (10 ∷ []) (omega arith) (omega arith)
      quiet can_switch refl

-- Thread 20, with the id 5, has called `deschedule`.
abbrev waiting : Kernel
waiting = record kernel { tcb = update threads 20 (record (threads 20) { state = blocked }) }

sys_make_runnable-MadeRunnable_example :
    (k' : Kernel) × (sys_make_runnable 5 waiting ≡ ok 0 k')
    × MadeRunnable waiting k' 20 (10 ∷ []) (30 ∷ [])
sys_make_runnable-MadeRunnable_example =
    sys_make_runnable-MadeRunnable 5 waiting (10 ∷ 20 ∷ []) (30 ∷ []) (omega arith) (omega arith)
      quiet queues 20 refl refl

-- Thread 40 yields to thread 30, with the id 6.
sys_yield-Switched_example :
    (k' : Kernel) × (sys_yield 6 kernel ≡ ok 0 k') × Switched kernel k' 30 (20 ∷ []) (10 ∷ 40 ∷ [])
sys_yield-Switched_example =
    sys_yield-Switched 6 kernel (10 ∷ 20 ∷ []) (30 ∷ []) (omega arith) quiet queues 30 [] refl
      (omega arith) refl can_switch

-- Thread 10, with the id 4, is blocked.
sys_yield-refuses_example : Refused 4 kernel
sys_yield-refuses_example =
    sys_yield-refuses 4 kernel (10 ∷ 20 ∷ []) (30 ∷ []) (omega arith) quiet queues (10 ∷ []) refl
      (inl (λ e. ground arith))
