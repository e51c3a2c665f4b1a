-- ===== src/Thread/Locks.antt =====
-- Mutexes that no thread waits for: locking, looking or changing, and unlocking.
use p.Base.{ℕ, ◌≡◌, refl, false, List, ◌∷◌, arith, update, has}
use p.Kernel.{Kernel, Mutex, ok, mutex_lock, mutex_unlock, minus_one}
use p.Thread.{look, change}

-- No mutex has a waiter, and those outside `ls` are not held.
pub record Quiet (locks : ℕ → Mutex) (ls : List ℕ) : Type 0 where
  pub calm : (l : ℕ) → (locks l).waiters ≡ 0
  pub free : (l : ℕ) → has l ls ≡ false → (locks l).status ≡ 0

abbrev pub locked : ℕ → Kernel → Kernel
locked l k = record k {
  mutex = update k.mutex l (record (k.mutex l) { status = 1; tid = (k.tcb k.current).tid });
}

abbrev pub released : ℕ → Kernel → Kernel
released l k = record k {
  mutex = update k.mutex l (record (k.mutex l) { status = 0; tid = minus_one });
}

pub lock-Quiet :
    (l : ℕ) (k : Kernel) (ls : List ℕ)
    → Quiet k.mutex ls
    → has l ls ≡ false
    → (mutex_lock l k ≡ ok tt (locked l k)) × Quiet (locked l k).mutex (l ∷ ls)
unfolding mutex_lock
lock-Quiet l k ls q h = (
  rw (q.free l h) refl,
  record { calm = λ a. ground (arith, q.calm a, q.calm l); free = λ a e. ground (arith, q.free a) },
)

pub unlock-Quiet :
    (l : ℕ) (k : Kernel) (ls : List ℕ)
    → Quiet k.mutex (l ∷ ls)
    → (mutex_unlock l k ≡ ok tt (released l k)) × Quiet (released l k).mutex ls
unfolding mutex_unlock
unlock-Quiet l k ls q = (
  rw (q.calm l) refl,
  record { calm = λ a. ground (arith, q.calm a, q.calm l); free = λ a e. ground (arith, q.free a) },
)

pub look-Quiet :
    {A : Type 0} (l : ℕ) (f : Kernel → A) (k : Kernel) (ls : List ℕ)
    → Quiet k.mutex ls
    → has l ls ≡ false
    → (look l f k ≡ ok (f (locked l k)) (released l (locked l k)))
      × Quiet (released l (locked l k)).mutex ls
look-Quiet l f k ls q h =
    let (e, q1) = lock-Quiet l k ls q h in
    let (e2, q2) = unlock-Quiet l (locked l k) ls q1 in (rw (e, e2) refl, q2)

pub change-Quiet :
    (l : ℕ) (f : Kernel → Kernel) (k : Kernel) (ls : List ℕ)
    → Quiet k.mutex ls
    → has l ls ≡ false
    → (f (locked l k)).mutex ≡ (locked l k).mutex
    → (change l f k ≡ ok tt (released l (f (locked l k))))
      × Quiet (released l (f (locked l k))).mutex ls
change-Quiet l f k ls q h same =
    let (e, q1) = lock-Quiet l k ls q h in
    let (e2, q2) = unlock-Quiet l (f (locked l k)) ls (rw same q1) in (rw (e, e2) refl, q2)
