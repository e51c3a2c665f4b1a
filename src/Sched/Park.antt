-- ===== src/Sched/Park.antt =====
-- Where the thread goes that gives up the processor.
use p.Base.{
  ℕ, ◌+◌, ◌<◌, ◌^◌, ◌≡◌, refl, ◌≢◌, false, List, [], ◌∷◌, ◌++◌, arith, has, length, has-snoc,
  update,
}
use p.LinkedList.{Ptr, list_insert_last}
use p.Kernel.{
  Kernel, ThreadState, exit, blocked, running, runnable, waiting, sleeping, init, readline, ok,
  blocked_queue, deschedule_lock, mutex_unlock, minus_one,
}
use p.Kernel.Queues.{Queues, Outside, block-Queues, resume-Queues}
use p.Sched.{park}

-- The specification: the queues behind a thread `c` that gives up the processor in a state.
abbrev pub blocked_after : ThreadState → Ptr → List Ptr → List Ptr
blocked_after blocked c bs = bs ++ (c ∷ [])
blocked_after waiting c bs = bs ++ (c ∷ [])
blocked_after readline c bs = bs ++ (c ∷ [])
blocked_after sleeping c bs = bs ++ (c ∷ [])
blocked_after _ c bs = bs

abbrev pub runnable_after : ThreadState → Ptr → List Ptr → List Ptr
runnable_after running c rs = rs ++ (c ∷ [])
runnable_after runnable c rs = rs ++ (c ∷ [])
runnable_after init c rs = rs ++ (c ∷ [])
runnable_after _ c rs = rs

-- The state behind `park`: the queues, and all else that the switch reads, as it was.
pub record Parked (k k' : Kernel) (bs rs : List Ptr) : Type 0 where
  pub queues : Queues k'.store bs rs
  pub threads : k'.tcb ≡ k.tcb

unlock :
    (l : ℕ) (k : Kernel)
    → (k.mutex l).waiters ≡ 0
    → mutex_unlock l k
      ≡ ok tt (record k {
        mutex = update k.mutex l (record (k.mutex l) { status = 0; tid = minus_one });
      })
unfolding mutex_unlock
unlock l k free = rw free refl

pub park-Parked :
    (c : Ptr) (st : ThreadState) (k : Kernel) (bs rs : List Ptr)
    → Queues k.store bs rs
    → Outside c bs rs
    → length bs + length rs + 3 < 2 ^ 32
    → (k.mutex deschedule_lock).waiters ≡ 0
    → (k' : Kernel) × (park c st k ≡ ok tt k')
      × Parked k k' (blocked_after st c bs) (runnable_after st c rs)
unfolding park
park-Parked c exit k bs rs q out room free = (k, refl, record { queues = q; threads = refl })
park-Parked c blocked k bs rs q out room free = (
  _,
  unlock deschedule_lock (record k { store = list_insert_last blocked_queue c k.store }) free,
  record { queues = block-Queues k.store c bs rs q out room; threads = refl },
)
park-Parked c waiting k bs rs q out room free =
    (_, refl, record { queues = block-Queues k.store c bs rs q out room; threads = refl })
park-Parked c readline k bs rs q out room free =
    (_, refl, record { queues = block-Queues k.store c bs rs q out room; threads = refl })
park-Parked c sleeping k bs rs q out room free =
    (_, refl, record { queues = block-Queues k.store c bs rs q out room; threads = refl })
park-Parked c running k bs rs q out room free =
    (_, refl, record { queues = resume-Queues k.store c bs rs q out room; threads = refl })
park-Parked c runnable k bs rs q out room free =
    (_, refl, record { queues = resume-Queues k.store c bs rs q out room; threads = refl })
park-Parked c init k bs rs q out room free =
    (_, refl, record { queues = resume-Queues k.store c bs rs q out room; threads = refl })

has-last : (x c : Ptr) (xs : List Ptr) → x ≢ c → has x xs ≡ false → has x (xs ++ (c ∷ [])) ≡ false
has-last x c xs ne h = ground (arith, has-snoc x xs c, h, ne)

not_last_blocked :
    (x c : Ptr) (bs rs : List Ptr) → x ≢ c → Outside x bs rs → Outside x (bs ++ (c ∷ [])) rs
not_last_blocked x c bs rs ne o = record {
  real = o.real;
  not_blocked = has-last x c bs ne o.not_blocked;
  not_runnable = o.not_runnable;
}

not_last_runnable :
    (x c : Ptr) (bs rs : List Ptr) → x ≢ c → Outside x bs rs → Outside x bs (rs ++ (c ∷ []))
not_last_runnable x c bs rs ne o = record {
  real = o.real;
  not_blocked = o.not_blocked;
  not_runnable = has-last x c rs ne o.not_runnable;
}

-- The thread that goes on is in neither queue behind the switch.
pub Outside-after :
    (st : ThreadState) (x c : Ptr) (bs rs : List Ptr)
    → x ≢ c
    → Outside x bs rs
    → Outside x (blocked_after st c bs) (runnable_after st c rs)
Outside-after exit x c bs rs ne o = o
Outside-after blocked x c bs rs ne o = not_last_blocked x c bs rs ne o
Outside-after waiting x c bs rs ne o = not_last_blocked x c bs rs ne o
Outside-after readline x c bs rs ne o = not_last_blocked x c bs rs ne o
Outside-after sleeping x c bs rs ne o = not_last_blocked x c bs rs ne o
Outside-after running x c bs rs ne o = not_last_runnable x c bs rs ne o
Outside-after runnable x c bs rs ne o = not_last_runnable x c bs rs ne o
Outside-after init x c bs rs ne o = not_last_runnable x c bs rs ne o
