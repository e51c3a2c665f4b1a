-- ===== src/LinkedList/Move.antt =====
-- `list_delete(from, j); list_insert_last(to, j);`, by which the kernel moves a thread from one
-- queue to another.
use p.Base.{
  ◌+◌, ◌<◌, ◌^◌, ◌≡◌, ◌≢◌, List, [], ◌∷◌, ◌++◌, arith, has-middle, has-middle_self, length,
  Distinct-middle, Disjoint, Disjoint-symm,
}
use p.LinkedList.{Ptr, null, Store, list_delete, list_insert_last}
use p.LinkedList.Shape.{IsList}
use p.LinkedList.Insert.{CanInsert, insert_last-IsList, insert_last-frame, next-insert_last}
use p.LinkedList.Delete.{delete-IsList, delete-frame, node-ne-null}

abbrev pub move : Ptr → Ptr → Ptr → Store → Store
move from to j m = list_insert_last to j (list_delete from j m).1

-- Two lists, `from` with the node `j` and `to` without it, that share no node.
pub record TwoLists (m : Store) (from to j : Ptr) (ys zs ws : List Ptr) : Type 0 where
  pub from_set : from ≢ null
  pub to_set : to ≢ null
  pub two : to ≢ from
  pub source : IsList m from (ys ++ (j ∷ zs))
  pub target : IsList m to ws
  pub apart : Disjoint ws (ys ++ (j ∷ zs))
  pub small : length (ys ++ (j ∷ zs)) < 2 ^ 32
  pub room : length ws + 1 < 2 ^ 32

module _ (m : Store) (from to j : Ptr) (ys zs ws : List Ptr)
    (t : TwoLists m from to j ys zs ws) where
  can_insert : CanInsert to j ws
  can_insert = record {
    list_set = t.to_set;
    node_set = node-ne-null m from j ys zs t.source;
    fresh = Disjoint-symm ws (ys ++ (j ∷ zs)) t.apart j (has-middle_self ys j zs);
    room = t.room;
  }

  target_kept : IsList (list_delete from j m).1 to ws
  target_kept = delete-frame m from j ys zs to ws t.from_set t.source t.two t.apart t.target

  rest-apart : Disjoint (ys ++ zs) (j ∷ ws)
  rest-apart a h = ground (
    arith,
    Distinct-middle ys j zs t.source.distinct,
    Disjoint-symm ws (ys ++ (j ∷ zs)) t.apart a (has-middle a ys j zs h),
  )

  -- For two lists that share no node, where the first one holds node j with the nodes ys before
  -- and zs behind it, and both lengths stay below 2 ^ 32: list_delete of j from the first list
  -- followed by list_insert_last of j into the second leaves the first list with ys and zs in
  -- their order, the second one with its old nodes and then j, both linked in both directions
  -- with head, tail and length right, and j's next pointer NULL.
  pub move-IsList :
      IsList (move from to j m) from (ys ++ zs)
      × IsList (move from to j m) to (ws ++ (j ∷ []))
      × ((move from to j m).next j ≡ null)
  move-IsList = (
    insert_last-frame (list_delete from j m).1 to j ws from (ys ++ zs) target_kept can_insert
        (λ e. t.two (cc)) rest-apart (delete-IsList m from j ys zs t.from_set t.source t.small).1,
    insert_last-IsList (list_delete from j m).1 to j ws target_kept can_insert,
    next-insert_last (list_delete from j m).1 to j t.to_set can_insert.node_set,
  )
