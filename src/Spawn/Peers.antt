-- ===== src/Spawn/Peers.antt =====
-- What the two insertions of `thread_fork` do to the store, wherever the last node of the process's
-- list of threads stands.
use p.Base.{
  ◌≡◌, refl, ◌∙◌, ◌≢◌, false, List, [], ◌∷◌, arith, ◌==◌, has, ne→==-false, last, Bool-cases, inl,
  inr,
}
use p.LinkedList.{Ptr, null, Store, list_insert_last}
use p.LinkedList.Shape.{IsList, IsList-frame, ne-last, last-ne-null}
use p.LinkedList.Insert.{
  CanInsert, appended, insert_last-appended, insert_last-sole, appended-same, appended-own,
  sole-same, sole-own,
}
use p.Vanish.{local_threads, copy_list}

-- An insertion changes the `next` of no node that is not in the list.
pub insert_last-elsewhere :
    (m : Store) (l j : Ptr) (xs : List Ptr) (x : Ptr)
    → IsList m l xs
    → CanInsert l j xs
    → has x (j ∷ xs) ≡ false
    → (list_insert_last l j m).next x ≡ m.next x
insert_last-elsewhere m l j [] x is can out =
    rw (insert_last-sole m l j can.list_set can.node_set (rw is.tail refl))
      ((sole-same m l j x (ground (arith, out))).1)
insert_last-elsewhere m l j (y ∷ ys) x is can out =
    rw
      (
        insert_last-appended m l j can.list_set can.node_set
            (rw is.tail (last-ne-null m null null y ys is.links)),
        is.tail,
      )
      (appended-same m l j (last y ys) x (ground (arith, out))
        (ne-last x y ys (ground (arith, out)))).1

-- Nor any field of another `list` object.
pub insert_last-header :
    (m : Store) (l j l' : Ptr)
    → l ≢ null
    → j ≢ null
    → l' ≢ l
    → ((list_insert_last l j m).head l' ≡ m.head l')
      × ((list_insert_last l j m).tail l' ≡ m.tail l')
      × ((list_insert_last l j m).length l' ≡ m.length l')
insert_last-header m l j l' hl hj ne = elim (Bool-cases (m.tail l == null)) [
  | inl e ↦ rw (insert_last-sole m l j hl hj e) (sole-own m l j l' ne)
  | inr e ↦ rw (insert_last-appended m l j hl hj e) (appended-own m l j (m.tail l) l' ne)
]

-- `l` is the list of the process, `t` its last node, and `j` the new one.
module _ (m : Store) (l j t : Ptr) (at : m.tail l ≡ t) (t_set : t ≢ null) (j_set : j ≢ null)
    (other : l ≢ local_threads) where
  abbrev copied : Store
  copied = copy_list local_threads l m

  -- The store behind the insertion into the copy.
  abbrev pub grown : Store
  grown = list_insert_last local_threads j copied

  grown-eq : grown ≡ appended copied local_threads j t
  grown-eq =
      insert_last-appended copied local_threads j (omega arith) j_set
        (rw at (ne→==-false t null t_set))
      ∙ rw at refl

  pub grown-frame :
      (l' : Ptr) (ws : List Ptr)
      → l' ≢ local_threads
      → has j ws ≡ false
      → has t ws ≡ false
      → IsList m l' ws
      → IsList grown l' ws
  grown-frame l' ws ne oj ot is =
      let far = ne→==-false l' local_threads ne in
      rw grown-eq (
        IsList-frame m (appended copied local_threads j t) l' ws is (rw far (refl, refl, refl))
          (λ x h.
            appended-same copied local_threads j t x (ground (arith, h, oj))
              (ground (arith, h, ot))))

  pub grown-next : j ≢ t → (grown.next t ≡ j) × (grown.next j ≡ null)
  grown-next ne = rw grown-eq (ground (arith, ne), ground arith)

  pub grown-header :
      (grown.head l ≡ m.head l) × (grown.tail l ≡ m.tail l) × (grown.length l ≡ m.length l)
  grown-header = rw (grown-eq, ne→==-false l local_threads other) (refl, refl, refl)
