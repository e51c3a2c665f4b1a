-- ===== src/Process/Reap.antt =====
-- `wait` with a child that has exited.
use p.Base.{
  ℕ, ◌*◌, leb, ltb, ◌+◌, ◌-◌, ◌<◌, ◌^◌, ◌≡◌, ◌≢◌, List, arith, ◌&&◌, length, first, if◌then◌else◌,
}
use p.LinkedList.{Ptr, null}
use p.LinkedList.Shape.{IsList}
use p.Paging.{page_len}
use p.Paging.Free.{Frees}
use p.Sched.Search.{search-Links}
use p.Sched.Wake.{waked}
use p.Process.{World, own_process, find_exited, has_exited}

-- The children of the running thread's process, in the order of its list.
pub record IsParent (w : World) (cs : List Ptr) : Type 0 where
  pub set : (w.pcb (own_process w)).children ≢ null
  pub children : IsList w.kernel.store (w.pcb (own_process w)).children cs
  pub small : length cs < 2 ^ 32
  pub count : (w.pcb (own_process w)).children_count ≡ length cs

abbrev pub exited_in : World → List Ptr → List Ptr
exited_in w cs = waked (λ n. has_exited (w.pcb n)) cs

pub find_exited-first :
    (w : World) (cs : List Ptr) → IsParent w cs → find_exited w ≡ first null (exited_in w cs)
unfolding find_exited
find_exited-first w cs is =
    let l = (w.pcb (own_process w)).children in
    let m = w.kernel.store in
    rw is.children.head (
      search-Links (λ n. has_exited (w.pcb n)) m (m.length l + 1) null cs is.children.links
        (omega (arith, is.children.length)))

-- The state behind the reaping of child `x`.
pub record Reaped (w w' : World) (x : Ptr) (cs : List Ptr) : Type 0 where
  pub parent : IsParent w' cs
  pub freed : Frees w.vm w'.vm (w.pcb x).pd (4 * page_len) ((page_len - 4) * page_len)
  pub directory :
      (i : ℕ)
      → w'.vm.tables (w.pcb x).pd i
        ≡ (if leb 4 i && ltb i page_len then 0 else w.vm.tables (w.pcb x).pd i)
  pub others : (q : Ptr) → q ≢ own_process w → w'.pcb q ≡ w.pcb q
  pub threads : w'.kernel.tcb ≡ w.kernel.tcb
