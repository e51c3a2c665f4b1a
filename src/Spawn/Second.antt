-- ===== src/Spawn/Second.antt =====
-- Two calls of `thread_fork` in the same thread.
use p.Base.{◌+◌, ◌<◌, ◌^◌, ◌≡◌, ◌∙◌, List, [], ◌∷◌, ◌++◌, arith, length, length-append}
use p.LinkedList.{Ptr, null}
use p.Kernel.Queues.{Queues}
use p.Spawn.{Machine, Fresh, sys_thread_fork}
use p.Spawn.Child.{
  threads_of, store_of, IsLast, IsFresh, same_threads, sys_thread_fork-Forked,
  sys_thread_fork-IsLast,
}

abbrev pub both : Fresh → Fresh → Machine → Machine
both fresh fresh' s = (sys_thread_fork fresh' (sys_thread_fork fresh s).1).1

-- For a process's list of threads whose header has t as its last node, new control blocks for
-- both calls whose nodes are in no queue and differ from t and from the running thread, queues
-- in order and shorter than 2 ^ 32 - 4 together: after two calls of sys_thread_fork the node
-- behind t is the second child's, which has no successor, and head, tail and length in the
-- header of the process's list are as before the first call, so that the first child is not in
-- the list.
pub second_fork_loses :
    (s : Machine) (fresh fresh' : Fresh) (t : Ptr) (bs rs : List Ptr)
    → IsLast s t bs rs
    → IsFresh s fresh t bs rs
    → Queues (store_of s) bs rs
    → length bs + length rs + 4 < 2 ^ 32
    → IsFresh (sys_thread_fork fresh s).1 fresh' t bs (rs ++ (fresh.thread_list_node ∷ []))
    → ((store_of (both fresh fresh' s)).next t ≡ fresh'.peer_threads_node)
      × ((store_of (both fresh fresh' s)).next fresh'.peer_threads_node ≡ null)
      × ((store_of (both fresh fresh' s)).head (threads_of s) ≡ (store_of s).head (threads_of s))
      × ((store_of (both fresh fresh' s)).tail (threads_of s) ≡ t)
      × ((store_of (both fresh fresh' s)).length (threads_of s)
          ≡ (store_of s).length (threads_of s))
second_fork_loses s fresh fresh' t bs rs is new queues room new' =
    let s1 = (sys_thread_fork fresh s).1 in
    let rs1 = rs ++ (fresh.thread_list_node ∷ []) in
    let small : length bs + length rs + 3 < 2 ^ 32 = omega (arith, room) in
    let small1 : length bs + length rs1 + 3 < 2 ^ 32 =
      omega (arith, room, length-append rs (fresh.thread_list_node ∷ [])) in
    let f = (sys_thread_fork-Forked s fresh t bs rs is new queues small).1 in
    let is1 = sys_thread_fork-IsLast s fresh t bs rs is new queues small in
    let f1 = (sys_thread_fork-Forked s1 fresh' t bs rs1 is1 new' f.queues small1).1 in
    let same = same_threads s fresh t bs rs is new queues small in
    (
      f1.behind,
      f1.end,
      (rw same at f1.head) ∙ f.head,
      (rw same at f1.tail) ∙ (f.tail ∙ is.last),
      (rw same at f1.length) ∙ f.length,
    )
