-- ===== src/LinkedList/Insert.antt =====
-- `list_insert_first` and `list_insert_last` put a new node at an end of the list.
use p.Base.{
  ℕ, true, ◌+◌, ◌<◌, ◌%◌, ◌^◌, ◌≡◌, refl, ◌≢◌, ◌∙◌, sym, false, List, [], ◌∷◌, ◌++◌, arith, ◌==◌,
  update, update_self, ne→==-false, has, length, length-append, Bool-cases, inl, inr, last,
  last-append, Disjoint, Distinct-append,
}
use p.LinkedList.{Ptr, null, Store, list_insert_first, list_insert_last}
use p.LinkedList.Shape.{
  IsList, Links-end, Links-start, Links-append, last-ne-null, ne-last, IsList-frame,
}

-- What a call needs: both pointers are set, the node is in no list, the count does not wrap.
pub record CanInsert (l j : Ptr) (xs : List Ptr) : Type 0 where
  pub list_set : l ≢ null
  pub node_set : j ≢ null
  pub fresh : has j xs ≡ false
  pub room : length xs + 1 < 2 ^ 32

grown :
    (n : ℕ) (xs : List Ptr)
    → n ≡ length xs
    → length xs + 1 < 2 ^ 32
    → (n + 1) % 2 ^ 32 ≡ length xs + 1
grown n xs e h = omega arith

module _ (m : Store) (l j : Ptr) where
  -- What the two functions leave in an empty list.
  abbrev sole : Store
  sole = record {
    prev = update m.prev j null;
    next = update m.next j null;
    length = update m.length l ((m.length l + 1) % 2 ^ 32);
    head = update m.head l j;
    tail = update m.tail l j;
  }

  -- What `list_insert_last` leaves behind a last node `t`.
  abbrev pub appended : Ptr → Store
  appended t = record {
    prev = update m.prev j t;
    next = update (update m.next t j) j null;
    length = update m.length l ((m.length l + 1) % 2 ^ 32);
    head = m.head;
    tail = update m.tail l j;
  }

  -- What `list_insert_first` leaves in front of a first node `h`.
  abbrev prepended : Ptr → Store
  prepended h = record {
    prev = update (update m.prev h j) j null;
    next = update m.next j h;
    length = update m.length l ((m.length l + 1) % 2 ^ 32);
    head = update m.head l j;
    tail = m.tail;
  }

  module _ (hl : l ≢ null) (hj : j ≢ null) where
    pub insert_last-sole : (m.tail l == null) ≡ true → list_insert_last l j m ≡ sole
    unfolding list_insert_last
    insert_last-sole ht = rw (ne→==-false l null hl, ne→==-false j null hj, ht)

    pub insert_last-appended :
        (m.tail l == null) ≡ false → list_insert_last l j m ≡ appended (m.tail l)
    unfolding list_insert_last
    insert_last-appended ht = rw (ne→==-false l null hl, ne→==-false j null hj, ht)

    insert_first-sole : (m.head l == null) ≡ true → list_insert_first l j m ≡ sole
    unfolding list_insert_first
    insert_first-sole ht = rw (ne→==-false l null hl, ne→==-false j null hj, ht)

    insert_first-prepended :
        (m.head l == null) ≡ false → list_insert_first l j m ≡ prepended (m.head l)
    unfolding list_insert_first
    insert_first-prepended ht = rw (ne→==-false l null hl, ne→==-false j null hj, ht)

  sole-IsList : IsList m l [] → CanInsert l j [] → IsList sole l (j ∷ [])
  sole-IsList is can = record {
    head = update_self m.head l j;
    tail = update_self m.tail l j;
    length = update_self m.length l _ ∙ grown (m.length l) [] is.length can.room;
    links = (can.node_set, update_self m.prev j null, update_self m.next j null, tt);
    distinct = (refl, tt);
  }

  appended-IsList :
      (x : Ptr) (xs : List Ptr)
      → IsList m l (x ∷ xs)
      → CanInsert l j (x ∷ xs)
      → IsList (appended (last x xs)) l ((x ∷ xs) ++ (j ∷ []))
  appended-IsList x xs is can = record {
    head = is.head;
    tail = update_self m.tail l j ∙ sym (last-append null (x ∷ xs) (j ∷ []));
    length =
        update_self m.length l _
        ∙ grown (m.length l) (x ∷ xs) is.length can.room
        ∙ sym (length-append (x ∷ xs) (j ∷ []));
    links =
        Links-append (appended (last x xs)) null null (x ∷ xs) (j ∷ [])
          (Links-end m (appended (last x xs)) null null j (x ∷ xs) is.links is.distinct
            (λ y h. ground (arith, can.fresh)))
          (can.node_set, ground arith, ground arith, tt);
    distinct =
        Distinct-append (x ∷ xs) (j ∷ []) is.distinct (refl, tt) (λ a h. ground (arith, can.fresh));
  }

  prepended-IsList :
      (x : Ptr) (xs : List Ptr)
      → IsList m l (x ∷ xs)
      → CanInsert l j (x ∷ xs)
      → IsList (prepended x) l (j ∷ x ∷ xs)
  prepended-IsList x xs is can = record {
    head = update_self m.head l j;
    tail = is.tail;
    length =
        update_self m.length l _ ∙ grown (m.length l) (x ∷ xs) is.length can.room ∙ omega arith;
    links = (
      can.node_set,
      ground arith,
      ground arith,
      Links-start m (prepended x) null j null (x ∷ xs) is.links is.distinct
          (λ y h. ground (arith, can.fresh)),
    );
    distinct = (can.fresh, is.distinct);
  }

-- For a list and a node j that is not NULL and not in it, list_insert_last leaves the list with
-- its old nodes and then j, linked in both directions, with head, tail and length right, as
-- long as the length stays below 2 ^ 32.
pub insert_last-IsList :
    (m : Store) (l j : Ptr) (xs : List Ptr)
    → IsList m l xs
    → CanInsert l j xs
    → IsList (list_insert_last l j m) l (xs ++ (j ∷ []))
insert_last-IsList m l j [] is can =
    let empty : (m.tail l == null) ≡ true = rw is.tail refl in
    rw (insert_last-sole m l j can.list_set can.node_set empty) (sole-IsList m l j is can)
insert_last-IsList m l j (x ∷ xs) is can =
    let occupied : (m.tail l == null) ≡ false =
      rw is.tail (last-ne-null m null null x xs is.links) in
    rw (insert_last-appended m l j can.list_set can.node_set occupied, is.tail)
      (appended-IsList m l j x xs is can)

-- For a list and a node j that is not NULL and not in it, list_insert_first leaves the list
-- with j and then its old nodes, linked in both directions, with head, tail and length right,
-- as long as the length stays below 2 ^ 32.
insert_first-IsList :
    (m : Store) (l j : Ptr) (xs : List Ptr)
    → IsList m l xs
    → CanInsert l j xs
    → IsList (list_insert_first l j m) l (j ∷ xs)
insert_first-IsList m l j [] is can =
    let empty : (m.head l == null) ≡ true = rw is.head refl in
    rw (insert_first-sole m l j can.list_set can.node_set empty) (sole-IsList m l j is can)
insert_first-IsList m l j (x ∷ xs) is can =
    let occupied : (m.head l == null) ≡ false = rw is.head (ne→==-false x null is.links.0) in
    rw (insert_first-prepended m l j can.list_set can.node_set occupied, is.head)
      (prepended-IsList m l j x xs is can)

pub appended-same :
    (m : Store) (l j t x : Ptr)
    → (x == j) ≡ false
    → (x == t) ≡ false
    → ((appended m l j t).prev x ≡ m.prev x) × ((appended m l j t).next x ≡ m.next x)
appended-same m l j t x hj ht = ground arith

pub appended-own :
    (m : Store) (l j t l' : Ptr)
    → l' ≢ l
    → ((appended m l j t).head l' ≡ m.head l')
      × ((appended m l j t).tail l' ≡ m.tail l')
      × ((appended m l j t).length l' ≡ m.length l')
appended-own m l j t l' ne = ground arith

pub sole-same :
    (m : Store) (l j x : Ptr)
    → (x == j) ≡ false
    → ((sole m l j).prev x ≡ m.prev x) × ((sole m l j).next x ≡ m.next x)
sole-same m l j x hj = ground arith

pub sole-own :
    (m : Store) (l j l' : Ptr)
    → l' ≢ l
    → ((sole m l j).head l' ≡ m.head l')
      × ((sole m l j).tail l' ≡ m.tail l')
      × ((sole m l j).length l' ≡ m.length l')
sole-own m l j l' ne = ground arith

pub insert_last-frame :
    (m : Store) (l j : Ptr) (xs : List Ptr) (l' : Ptr) (ws : List Ptr)
    → IsList m l xs
    → CanInsert l j xs
    → l' ≢ l
    → Disjoint ws (j ∷ xs)
    → IsList m l' ws
    → IsList (list_insert_last l j m) l' ws
insert_last-frame m l j [] l' ws is can ne apart other =
    let empty : (m.tail l == null) ≡ true = rw is.tail refl in
    rw (insert_last-sole m l j can.list_set can.node_set empty) (
      IsList-frame m (sole m l j) l' ws other (sole-own m l j l' ne)
        (λ x h. sole-same m l j x (ground (arith, apart x h))))
insert_last-frame m l j (y ∷ xs) l' ws is can ne apart other =
    let occupied : (m.tail l == null) ≡ false =
      rw is.tail (last-ne-null m null null y xs is.links) in
    rw (insert_last-appended m l j can.list_set can.node_set occupied, is.tail)
      (IsList-frame m (appended m l j (last y xs)) l' ws other
        (appended-own m l j (last y xs) l' ne)
        (λ x h.
          appended-same m l j (last y xs) x (ground (arith, apart x h))
            (ne-last x y xs (ground (arith, apart x h)))))

-- The node that was put at the end has no successor.
pub next-insert_last :
    (m : Store) (l j : Ptr) → l ≢ null → j ≢ null → (list_insert_last l j m).next j ≡ null
next-insert_last m l j hl hj = elim (Bool-cases (m.tail l == null)) [
  | inl e ↦ rw (insert_last-sole m l j hl hj e) (update_self m.next j null)
  | inr e ↦
      rw (insert_last-appended m l j hl hj e) (update_self (update m.next (m.tail l) j) j null)
]
