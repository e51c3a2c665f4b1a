-- ===== src/Kernel/Queues.antt =====
-- The blocked and the runnable queue in the store, and what moving a thread does to them.
use p.Base.{
  ◌+◌, ◌<◌, ◌^◌, ◌≡◌, ◌≢◌, false, List, [], ◌∷◌, ◌++◌, arith, has, length, length-append, Disjoint,
  Disjoint-symm, Disjoint-cons, Disjoint-snoc, Disjoint-snoc_left, Disjoint-middle, Distinct-middle,
  has-middle, has-middle_self,
}
use p.LinkedList.{Ptr, null, Store, list_delete, list_insert_last}
use p.LinkedList.Shape.{IsList}
use p.LinkedList.Insert.{CanInsert, insert_last-IsList, insert_last-frame}
use p.LinkedList.Delete.{delete-IsList, delete-frame, node-ne-null}
use p.LinkedList.Move.{move, move-IsList}
use p.Kernel.{blocked_queue, runnable_queue}

-- The two queues stand for the threads `bs` and `rs`, and no thread is in both.
pub record Queues (m : Store) (bs rs : List Ptr) : Type 0 where
  pub blocked : IsList m blocked_queue bs
  pub runnable : IsList m runnable_queue rs
  pub apart : Disjoint rs bs
  pub small : length bs + length rs + 2 < 2 ^ 32

-- A thread that is in neither queue.
pub record Outside (c : Ptr) (bs rs : List Ptr) : Type 0 where
  pub real : c ≢ null
  pub not_blocked : has c bs ≡ false
  pub not_runnable : has c rs ≡ false

length-middle :
    (ys : List Ptr) (j : Ptr) (zs : List Ptr) → length (ys ++ (j ∷ zs)) ≡ length (ys ++ zs) + 1
length-middle ys j zs = omega (arith, length-append ys (j ∷ zs), length-append ys zs)

length-snoc : (ys : List Ptr) (j : Ptr) → length (ys ++ (j ∷ [])) ≡ length ys + 1
length-snoc ys j = omega (arith, length-append ys (j ∷ []))

module _ (m : Store) where
  -- A blocked thread becomes runnable.
  pub wake-Queues :
      (ys : List Ptr) (j : Ptr) (zs rs : List Ptr)
      → Queues m (ys ++ (j ∷ zs)) rs
      → Queues (move blocked_queue runnable_queue j m) (ys ++ zs) (rs ++ (j ∷ []))
        × ((move blocked_queue runnable_queue j m).next j ≡ null)
  wake-Queues ys j zs rs q =
      let (b, r, n) = move-IsList m blocked_queue runnable_queue j ys zs rs (record {
        from_set = omega arith;
        to_set = omega arith;
        two = omega arith;
        source = q.blocked;
        target = q.runnable;
        apart = q.apart;
        small = omega (arith, q.small);
        room = omega (arith, q.small, length-middle ys j zs);
      }) in
      (
        record {
          blocked = b;
          runnable = r;
          apart =
              Disjoint-snoc_left rs (ys ++ zs) j (Disjoint-middle rs ys j zs q.apart)
                (Distinct-middle ys j zs q.blocked.distinct);
          small = omega (arith, q.small, length-middle ys j zs, length-snoc rs j);
        },
        n,
      )

  -- A thread leaves the runnable queue.
  pub take-Queues :
      (bs ys : List Ptr) (j : Ptr) (zs : List Ptr)
      → Queues m bs (ys ++ (j ∷ zs))
      → ((list_delete runnable_queue j m).0 ≡ j)
        × Queues (list_delete runnable_queue j m).1 bs (ys ++ zs)
        × Outside j bs (ys ++ zs)
  take-Queues bs ys j zs q =
      let (got, r) =
        delete-IsList m runnable_queue j ys zs (omega arith) q.runnable (omega (arith, q.small)) in
      (
        got,
        record {
          blocked =
              delete-frame m runnable_queue j ys zs blocked_queue bs (omega arith) q.runnable
                (omega arith) (Disjoint-symm (ys ++ (j ∷ zs)) bs q.apart) q.blocked;
          runnable = r;
          apart = λ a h. q.apart a (has-middle a ys j zs h);
          small = omega (arith, q.small, length-middle ys j zs);
        },
        record {
          real = node-ne-null m runnable_queue j ys zs q.runnable;
          not_blocked = q.apart j (has-middle_self ys j zs);
          not_runnable = Distinct-middle ys j zs q.runnable.distinct;
        },
      )

  -- A thread that is in no queue joins one.
  pub block-Queues :
      (c : Ptr) (bs rs : List Ptr)
      → Queues m bs rs
      → Outside c bs rs
      → length bs + length rs + 3 < 2 ^ 32
      → Queues (list_insert_last blocked_queue c m) (bs ++ (c ∷ [])) rs
  block-Queues c bs rs q out room =
      let can : CanInsert blocked_queue c bs = record {
        list_set = omega arith;
        node_set = out.real;
        fresh = out.not_blocked;
        room = omega (arith, q.small);
      } in
      record {
        blocked = insert_last-IsList m blocked_queue c bs q.blocked can;
        runnable =
            insert_last-frame m blocked_queue c bs runnable_queue rs q.blocked can (omega arith)
              (Disjoint-cons rs bs c q.apart out.not_runnable) q.runnable;
        apart = Disjoint-snoc rs bs c q.apart out.not_runnable;
        small = omega (arith, room, length-snoc bs c);
      }

  pub resume-Queues :
      (c : Ptr) (bs rs : List Ptr)
      → Queues m bs rs
      → Outside c bs rs
      → length bs + length rs + 3 < 2 ^ 32
      → Queues (list_insert_last runnable_queue c m) bs (rs ++ (c ∷ []))
  resume-Queues c bs rs q out room =
      let can : CanInsert runnable_queue c rs = record {
        list_set = omega arith;
        node_set = out.real;
        fresh = out.not_runnable;
        room = omega (arith, q.small);
      } in
      record {
        blocked =
            insert_last-frame m runnable_queue c rs blocked_queue bs q.runnable can (omega arith)
              (Disjoint-cons bs rs c (Disjoint-symm rs bs q.apart) out.not_blocked) q.blocked;
        runnable = insert_last-IsList m runnable_queue c rs q.runnable can;
        apart = Disjoint-snoc_left rs bs c q.apart out.not_blocked;
        small = omega (arith, room, length-snoc rs c);
      }
