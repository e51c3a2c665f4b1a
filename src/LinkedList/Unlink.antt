-- ===== src/LinkedList/Unlink.antt =====
-- The store that `list_delete` leaves when the node is one of the list.
use p.Base.{
  ◌+◌, ◌-◌, ◌<◌, ◌%◌, ◌^◌, ◌≡◌, refl, ◌≢◌, ◌∙◌, sym, true, false, List, [], ◌∷◌, ◌++◌, arith, ◌==◌,
  Bool-cases, if◌then◌else◌, update, update_self, ne→==-false, ==_refl, inl, inr, has, length,
  length-append, first, last, last-append, has-last, Distinct, Disjoint, Distinct-append,
  Distinct-left, Distinct-right, Distinct-apart,
}
use p.LinkedList.{Ptr, null, Store, list_delete}
use p.LinkedList.Shape.{
  Links, IsList, Links-end, Links-start, Links-append, Links-left, Links-right, last-ne-null,
}

Disjoint-tail : (ys : List Ptr) (j : Ptr) (zs : List Ptr) → Disjoint ys (j ∷ zs) → Disjoint ys zs
Disjoint-tail ys j zs apart a h = ground (arith, apart a h)

-- A node of the back part is not the last one of the front part.
apart-last :
    (y : Ptr) (ys zs : List Ptr) (x : Ptr)
    → Disjoint (y ∷ ys) zs
    → has x zs ≡ true
    → (x == last y ys) ≡ false
apart-last y ys zs x apart h = ground (arith, has-last y ys, apart (last y ys))

module _ (m : Store) (l j : Ptr) where
  -- What `list_delete` leaves when `j` stands between `a` and `b`, each NULL where `j` is at an end.
  abbrev pub removed : Ptr → Ptr → Store
  removed a b = record {
    prev = if b == null then m.prev else update m.prev b a;
    next = if a == null then m.next else update m.next a b;
    length = update m.length l ((m.length l + 2 ^ 32 - 1) % 2 ^ 32);
    head = if a == null then update m.head l b else m.head;
    tail = if b == null then update m.tail l a else m.tail;
  }

  delete-removed :
      (a b : Ptr)
      → l ≢ null
      → j ≢ null
      → m.prev j ≡ a
      → m.next j ≡ b
      → (j == a) ≡ false
      → ((a == null) ≡ true → m.head l ≡ j)
      → ((b == null) ≡ true → m.tail l ≡ j)
      → list_delete l j m ≡ (j, removed a b)
  unfolding list_delete
  delete-removed a b hl hj pa nb ja at_head at_tail = elim (Bool-cases (a == null)) [
    | inl ea ↦ elim (Bool-cases (b == null)) [
      | inl eb ↦ rw (
        ne→==-false l null hl,
        ne→==-false j null hj,
        pa,
        ea,
        at_head ea,
        ==_refl j,
        nb,
        eb,
        at_tail eb,
        ==_refl j,
      )
      | inr eb ↦
          rw (ne→==-false l null hl, ne→==-false j null hj, pa, ea, at_head ea, ==_refl j, nb, eb)
    ]
    | inr ea ↦ elim (Bool-cases (b == null)) [
      | inl eb ↦
          rw (
            ne→==-false l null hl,
            ne→==-false j null hj,
            pa,
            ea,
            ja,
            nb,
            eb,
            at_tail eb,
            ==_refl j,
          )
      | inr eb ↦ rw (ne→==-false l null hl, ne→==-false j null hj, pa, ea, ja, nb, eb)
    ]
  ]

  shrunk :
      (ys zs : List Ptr)
      → m.length l ≡ length (ys ++ (j ∷ zs))
      → length (ys ++ (j ∷ zs)) < 2 ^ 32
      → (m.length l + 2 ^ 32 - 1) % 2 ^ 32 ≡ length (ys ++ zs)
  shrunk ys zs e h = omega (arith, length-append ys zs, length-append ys (j ∷ zs))

  removed-left :
      (ys zs : List Ptr)
      → Links m null j ys
      → Distinct ys
      → Disjoint ys zs
      → Links (removed (last null ys) (first null zs)) null (first null zs) ys
  removed-left [] zs s d apart = tt
  removed-left (y ∷ ys) [] s d apart =
      let ne = last-ne-null m null j y ys s in
      Links-end m (removed (last y ys) null) null j null (y ∷ ys) s d (λ x h. (refl, rw ne refl))
  removed-left (y ∷ ys) (z ∷ zs) s d apart =
      let ne = last-ne-null m null j y ys s in
      Links-end m (removed (last y ys) z) null j z (y ∷ ys) s d
        (λ x h. (ground (arith, apart x h), rw ne refl))

  removed-right :
      (ys zs : List Ptr)
      → Links m null j ys
      → Links m j null zs
      → Distinct zs
      → Disjoint ys zs
      → Links (removed (last null ys) (first null zs)) (last null ys) null zs
  removed-right ys [] s t d apart = tt
  removed-right [] (z ∷ zs) s t d apart =
      Links-start m (removed null z) j null null (z ∷ zs) t d
        (λ x h. (rw (ne→==-false z null t.0) refl, refl))
  removed-right (y ∷ ys) (z ∷ zs) s t d apart =
      let ne = last-ne-null m null j y ys s in
      Links-start m (removed (last y ys) z) j (last y ys) null (z ∷ zs) t d
        (λ x h. (rw (ne→==-false z null t.0) refl, rw (ne, apart-last y ys (z ∷ zs) x apart h)))

  removed-head :
      (ys zs : List Ptr)
      → m.head l ≡ first null (ys ++ (j ∷ zs))
      → Links m null j ys
      → (removed (last null ys) (first null zs)).head l ≡ first null (ys ++ zs)
  removed-head [] zs e s = update_self m.head l (first null zs)
  removed-head (y ∷ ys) zs e s = rw (last-ne-null m null j y ys s) e

  removed-tail :
      (ys zs : List Ptr)
      → m.tail l ≡ last j zs
      → Links m j null zs
      → (removed (last null ys) (first null zs)).tail l ≡ last (last null ys) zs
  removed-tail ys [] e t = update_self m.tail l (last null ys)
  removed-tail ys (z ∷ zs) e t = rw (ne→==-false z null t.0) e

  -- The list without `j`, in the store that `list_delete` leaves.
  pub removed-IsList :
      (ys zs : List Ptr)
      → IsList m l (ys ++ (j ∷ zs))
      → length (ys ++ (j ∷ zs)) < 2 ^ 32
      → IsList (removed (last null ys) (first null zs)) l (ys ++ zs)
  removed-IsList ys zs is small =
      let front = Links-left m null null ys (j ∷ zs) is.links in
      let back = Links-right m null null ys (j ∷ zs) is.links in
      let d = Distinct-left ys (j ∷ zs) is.distinct in
      let e = Distinct-right ys (j ∷ zs) is.distinct in
      let apart = Disjoint-tail ys j zs (Distinct-apart ys (j ∷ zs) is.distinct) in
      record {
        head = removed-head ys zs is.head front;
        tail =
            removed-tail ys zs (is.tail ∙ last-append null ys (j ∷ zs)) back.3
            ∙ sym (last-append null ys zs);
        length = update_self m.length l _ ∙ shrunk ys zs is.length small;
        links =
            Links-append (removed (last null ys) (first null zs)) null null ys zs
              (removed-left ys zs front d apart) (removed-right ys zs front back.3 e.1 apart);
        distinct = Distinct-append ys zs d e.1 apart;
      }

  at_head :
      (ys zs : List Ptr)
      → m.head l ≡ first null (ys ++ (j ∷ zs))
      → Links m null j ys
      → (last null ys == null) ≡ true
      → m.head l ≡ j
  at_head [] zs e s h = e
  at_head (y ∷ ys) zs e s h = cc (last-ne-null m null j y ys s)

  at_tail :
      (zs : List Ptr)
      → m.tail l ≡ last j zs
      → Links m j null zs
      → (first null zs == null) ≡ true
      → m.tail l ≡ j
  at_tail [] e t h = e
  at_tail (z ∷ zs) e t h = cc (ne→==-false z null t.0)

  not-last : (ys zs : List Ptr) → j ≢ null → Disjoint ys (j ∷ zs) → (j == last null ys) ≡ false
  not-last [] zs hj apart = ne→==-false j null hj
  not-last (y ∷ ys) zs hj apart = apart-last y ys (j ∷ zs) j apart (ground arith)

  pub delete-eq :
      (ys zs : List Ptr)
      → l ≢ null
      → IsList m l (ys ++ (j ∷ zs))
      → list_delete l j m ≡ (j, removed (last null ys) (first null zs))
  delete-eq ys zs hl is =
      let front = Links-left m null null ys (j ∷ zs) is.links in
      let back = Links-right m null null ys (j ∷ zs) is.links in
      delete-removed (last null ys) (first null zs) hl back.0 back.1 back.2
        (not-last ys zs back.0 (Distinct-apart ys (j ∷ zs) is.distinct))
        (at_head ys zs is.head front) (at_tail zs (is.tail ∙ last-append null ys (j ∷ zs)) back.3)
