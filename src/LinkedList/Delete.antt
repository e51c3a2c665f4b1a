-- ===== src/LinkedList/Delete.antt =====
-- `list_delete` unlinks a node of the list, wherever it stands.
use p.Base.{
  ◌<◌, ◌^◌, ◌≡◌, refl, ◌≢◌, true, List, [], ◌∷◌, ◌++◌, arith, ◌==◌, ◌||◌, not, has-append, has,
  length, first, last, has-last, Disjoint,
}
use p.LinkedList.{Ptr, null, Store, list_delete}
use p.LinkedList.Shape.{IsList, Links-right, IsList-frame}
use p.LinkedList.Unlink.{removed, delete-eq, removed-IsList}

-- For a list shorter than 2 ^ 32 that holds node j between the nodes ys and zs, list_delete
-- returns j and leaves the list with ys and then zs, linked in both directions, with head, tail
-- and length right.
pub delete-IsList :
    (m : Store) (l j : Ptr) (ys zs : List Ptr)
    → l ≢ null
    → IsList m l (ys ++ (j ∷ zs))
    → length (ys ++ (j ∷ zs)) < 2 ^ 32
    → ((list_delete l j m).0 ≡ j) × IsList (list_delete l j m).1 l (ys ++ zs)
delete-IsList m l j ys zs hl is small =
    rw (delete-eq m l j ys zs hl is) (refl, removed-IsList m l j ys zs is small)

-- The links of another list's nodes, of which neither neighbour of `j` is one.
removed-same :
    (m : Store) (l j a b x : Ptr)
    → (a == null) || not (x == a) ≡ true
    → (b == null) || not (x == b) ≡ true
    → ((removed m l j a b).prev x ≡ m.prev x) × ((removed m l j a b).next x ≡ m.next x)
removed-same m l j a b x ha hb = ground arith

outside-last :
    (m : Store) (j : Ptr) (ys ws : List Ptr) (x : Ptr)
    → Disjoint ws ys
    → has x ws ≡ true
    → (last null ys == null) || not (x == last null ys) ≡ true
outside-last m j [] ws x apart h = refl
outside-last m j (y ∷ ys) ws x apart h = ground (arith, apart x h, has-last y ys)

outside-first :
    (zs ws : List Ptr) (x : Ptr)
    → Disjoint ws zs
    → has x ws ≡ true
    → (first null zs == null) || not (x == first null zs) ≡ true
outside-first [] ws x apart h = refl
outside-first (z ∷ zs) ws x apart h = ground (arith, apart x h)

-- The head, tail and length of another list.
removed-own :
    (m : Store) (l j a b l' : Ptr)
    → l' ≢ l
    → ((removed m l j a b).head l' ≡ m.head l')
      × ((removed m l j a b).tail l' ≡ m.tail l')
      × ((removed m l j a b).length l' ≡ m.length l')
removed-own m l j a b l' ne = ground arith

-- Deleting a node from a list leaves another list in order that shares no node with it.
pub delete-frame :
    (m : Store) (l j : Ptr) (ys zs : List Ptr) (l' : Ptr) (ws : List Ptr)
    → l ≢ null
    → IsList m l (ys ++ (j ∷ zs))
    → l' ≢ l
    → Disjoint ws (ys ++ (j ∷ zs))
    → IsList m l' ws
    → IsList (list_delete l j m).1 l' ws
delete-frame m l j ys zs l' ws hl is ne apart other =
    let front : Disjoint ws ys = λ a h. ground (arith, apart a h, has-append a ys (j ∷ zs)) in
    let back : Disjoint ws zs = λ a h. ground (arith, apart a h, has-append a ys (j ∷ zs)) in
    rw (delete-eq m l j ys zs hl is) (
      IsList-frame m (removed m l j (last null ys) (first null zs)) l' ws other
        (removed-own m l j (last null ys) (first null zs) l' ne)
        (λ x h.
          removed-same m l j (last null ys) (first null zs) x (outside-last m j ys ws x front h)
            (outside-first zs ws x back h)))

-- A node of a list is not NULL.
pub node-ne-null :
    (m : Store) (l j : Ptr) (ys zs : List Ptr) → IsList m l (ys ++ (j ∷ zs)) → j ≢ null
node-ne-null m l j ys zs is = (Links-right m null null ys (j ∷ zs) is.links).0
