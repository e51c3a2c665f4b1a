-- ===== src/Sched/Search.antt =====
-- The loops that look for a thread in a queue find the first one that passes the test.
use p.Base.{
  ℕ, zero, suc, ◌+◌, ◌<◌, ◌≡◌, refl, Bool, List, [], ◌∷◌, ◌++◌, ◌≢◌, arith, length, first,
  Bool-cases, inl, inr, ne→==-false,
}
use p.LinkedList.{Ptr, null, Store}
use p.LinkedList.Shape.{Links, IsList}
use p.Kernel.{Kernel, Tcb}
use p.Sched.{search_loop, find_thread}
use p.LinkedList.Delete.{node-ne-null}
use p.Sched.Wake.{waked, asleep}

pub search-Links :
    (test : Ptr → Bool) (m : Store) (fuel : ℕ) (before : Ptr) (xs : List Ptr)
    → Links m before null xs
    → length xs < fuel
    → search_loop test m.next fuel (first null xs) ≡ first null (waked test xs)
unfolding search_loop
search-Links test m zero before xs s h = elim h [ ]
search-Links test m (suc fuel) before [] s h = refl
search-Links test m (suc fuel) before (x ∷ xs) s h =
    let rest = search-Links test m fuel x xs s.3 (omega arith) in
    elim (Bool-cases (test x)) [
      | inl hit ↦ rw (ne→==-false x null s.0, hit) refl
      | inr miss ↦ rw (ne→==-false x null s.0, miss, s.2) rest
    ]

pub find_thread-first :
    (test : Tcb → Bool) (k : Kernel) (l : Ptr) (xs : List Ptr)
    → IsList k.store l xs
    → find_thread test l k ≡ first null (waked (λ n. test (k.tcb n)) xs)
unfolding find_thread
find_thread-first test k l xs is = rw is.head (
    search-Links (λ n. test (k.tcb n)) k.store (k.store.length l + 1) null xs is.links
      (omega (arith, is.length)))

-- Where the first element that passes a test stands.
pub waked-split :
    (test : Ptr → Bool) (bs : List Ptr) (x : Ptr) (ws : List Ptr)
    → waked test bs ≡ x ∷ ws
    → (ys : List Ptr) × (zs : List Ptr) × (bs ≡ ys ++ (x ∷ zs)) × (asleep test bs ≡ ys ++ zs)
waked-split test [] x ws e = absurd (cc)
waked-split test (y ∷ bs) x ws e = elim (Bool-cases (test y)) [
  | inl hit ↦ let same : y ≡ x = cc (rw hit at e) in ([], bs, rw same refl, rw hit refl)
  | inr miss ↦
      let (ys, zs, a, b) = waked-split test bs x ws (rw miss at e) in
      (y ∷ ys, zs, rw a refl, rw (miss, b) refl)
]

pub waked-real :
    (k : Kernel) (l : Ptr) (test : Ptr → Bool) (bs : List Ptr) (x : Ptr) (ws : List Ptr)
    → IsList k.store l bs
    → waked test bs ≡ x ∷ ws
    → x ≢ null
waked-real k l test bs x ws is e =
    let (ys, zs, a, b) = waked-split test bs x ws e in node-ne-null k.store l x ys zs (rw a at is)
