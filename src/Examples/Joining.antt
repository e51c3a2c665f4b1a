-- ===== src/Examples/Joining.antt =====
-- Threads of one task that exit and join, and a stack that grows.
use p.Base.{ℕ, ◌-◌, ◌*◌, ◌^◌, ◌%◌, true, false, ◌<◌, ◌≡◌, refl, some, [], ◌∷◌, arith, ◌==◌, update}
use p.User.Threads.{
  Thread, Task, running, gone, found, reaping, unlisting, exiting, vanishing, given_back,
  destroy_locks, thread_exit, thread_running, list_search, search_thread_by_id, thr_join,
  join_check, join_claim, thr_exit, exit_mark, count_running, thr_reap, join, exit, begin, advance,
  adjusted_size,
}
use p.User.Threads.Steps.{Library, after, Steps, here, later}
use p.User.Autostack.{myhandler, handle_fault, resumed}
use p.User.Autostack.Growth.{Grows, myhandler-Grows}
use p.User.Threads.Size.{adjusted_size-pages}
use p.User.Threads.Joins.{Starts, joins_once, join_status}
use p.User.Threads.Moves.{has_left}
use p.User.Threads.Races.{call_to, next_to, exits_leave, joins_race}

-- A stack of 10000 bytes takes three pages, and the handler one.
adjusted_size-pages_example : adjusted_size (2 ^ 20) 10000 ≡ some (4 * 4096 % 2 ^ 32)
adjusted_size-pages_example = adjusted_size-pages (2 ^ 20) 10000 (omega arith) (omega arith)

-- Threads 2, 3 and 4, with their `thread_t`s at 1002, 1003 and 1004.
abbrev thread : ℕ → Thread
thread p = record {
  tid = p - 1000;
  base = 4096 * p;
  status = thread_running;
  statusp = 0;
  joining_tid = 0;
}

abbrev task : Task
task = record {
  single_threaded = false;
  thread_list =
      record { tid = 2; thread = 1002 }
      ∷ record { tid = 3; thread = 1003 }
      ∷ record { tid = 4; thread = 1004 }
      ∷ [];
  threads = thread;
  freed = λ p. false;
  removed = [];
  list_locked = false;
}

abbrev fresh : Library
fresh = record { task = task; pc = λ i. running }

fresh-Starts : Starts (λ p. p - 1000) fresh
fresh-Starts = record {
  own = (refl, (refl, (refl, tt)));
  outside = λ i. refl;
  alive = λ p. omega arith;
}

-- Thread 4 exits with status 77, and has not vanished yet.
abbrev left : Library
left = after 4 (vanishing 1004, exit_mark 1004 77 task) (after 4 (exiting 1004 77, task) fresh)

left-Steps : Steps fresh left
unfolding begin thr_exit count_running search_thread_by_id list_search advance exit_mark
left-Steps =
    later
      (later here (
        call_to fresh 4 (exit 77) (exiting 1004 77, task) (omega arith) (omega arith) refl
          (refl, (refl, (refl, (refl, tt)))) refl))
      (next_to (after 4 (exiting 1004 77, task) fresh) 4 (exiting 1004 77)
        (vanishing 1004, exit_mark 1004 77 task) (omega arith) (omega arith) refl refl refl)

-- Thread 2 has found it, has claimed it, and has freed its `thread_t`.
abbrev seen : Library
seen = after 2 (found 4 1004, left.task) left

abbrev claimed_task : Task
claimed_task = (join_claim 2 4 1004 left.task).1

abbrev claimed : Library
claimed = after 2 (reaping 4 1004 77, claimed_task) seen

abbrev released : Library
released = after 2 (unlisting 4 1004 77, given_back 1004 claimed_task) claimed

released-Steps : Steps fresh released
unfolding begin thr_join search_thread_by_id list_search advance join_claim join_check exit_mark
    thr_reap destroy_locks
released-Steps =
    later
      (later
        (later left-Steps (
          call_to left 2 (join 4) (found 4 1004, left.task) (omega arith) (omega arith) refl refl
            refl))
        (next_to seen 2 (found 4 1004) (reaping 4 1004 77, claimed_task) (omega arith) (omega arith)
          refl refl refl))
      (next_to claimed 2 (reaping 4 1004 77) (unlisting 4 1004 77, given_back 1004 claimed_task)
        (omega arith) (omega arith) refl refl refl)

joins_once_example : ◌≡◌ {A = ℕ} 2 2
joins_once_example =
    joins_once (λ p. p - 1000) fresh released 2 2 1004 fresh-Starts released-Steps refl refl

join_status_example :
    (has_left (released.pc 4) ≡ true)
    × ((released.task.threads 1004).status ≡ thread_exit)
    × ((released.task.threads 1004).statusp ≡ 77)
join_status_example =
    join_status (λ p. p - 1000) fresh released 2 4 1004 77 fresh-Starts released-Steps refl

-- Without thread 4.
abbrev two : Library
two = record {
  task = record task {
    thread_list = record { tid = 2; thread = 1002 } ∷ record { tid = 3; thread = 1003 } ∷ [];
  };
  pc = λ i. running;
}

two_live : (count_running thread two.task.thread_list == 1) ≡ false
unfolding count_running
two_live = refl

two_search :
    (search_thread_by_id 2 two.task.thread_list ≡ some 1002)
    × (search_thread_by_id 3 two.task.thread_list ≡ some 1003)
unfolding search_thread_by_id list_search
two_search = (refl, refl)

exits_leave_example :
    (t : Library) × Steps two t
    × (t.pc 2 ≡ gone)
    × (t.pc 3 ≡ gone)
    × (t.task.thread_list ≡ two.task.thread_list)
    × (t.task.freed ≡ two.task.freed)
    × (t.task.removed ≡ [])
exits_leave_example =
    exits_leave two 2 3 (omega arith) (omega arith) (omega arith) (omega arith) (omega arith) refl
      refl 1002 1003 5 6 refl two_live refl (refl, (refl, tt)) two_search.0 two_search.1 refl refl

-- Thread 4 has exited, and nobody has joined it.
abbrev zombie : Library
zombie = record {
  task = record task {
    threads = update thread 1004 (record (thread 1004) { status = thread_exit; statusp = 77 });
  };
  pc = update (λ i. running) 4 gone;
}

zombie_search : search_thread_by_id 4 zombie.task.thread_list ≡ some 1004
unfolding search_thread_by_id list_search
zombie_search = refl

joins_race_example :
    (t : Library) × Steps zombie t × (t.pc 3 ≡ found 4 1004) × (t.task.freed 1004 ≡ true)
joins_race_example =
    joins_race zombie 2 3 (omega arith) (omega arith) (omega arith) (omega arith) (omega arith) refl
      refl 4 1004 (omega arith) (omega arith) refl zombie_search refl refl refl

grown :
    myhandler
      (λ addr len. 0)
      true
      (some (record { cause = 14; cr2 = 0xFEFFFF00; error_code = 6; esp = 0xFEFFFEF0 }))
    ≡ resumed 0xFEFFF000
unfolding myhandler handle_fault
grown = refl

-- A fault at 0xFEFFFF00 with the stack pointer at 0xFEFFFEF0.
myhandler-Grows_example :
    Grows true
      (record { cause = 14; cr2 = 0xFEFFFF00; error_code = 6; esp = 0xFEFFFEF0 })
      0xFEFFF000
    × (0 < 2 ^ 31)
myhandler-Grows_example =
    myhandler-Grows (λ addr len. 0) true
      (record { cause = 14; cr2 = 0xFEFFFF00; error_code = 6; esp = 0xFEFFFEF0 }) 0xFEFFF000 grown
