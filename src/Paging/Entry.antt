-- ===== src/Paging/Entry.antt =====
-- Writes to a page table, to the directory, and what they change of the view.
use p.Base.{
  ℕ, ◌≡◌, refl, sym, ◌≢◌, ◌⊎◌, false, arith, if◌then◌else◌, ◌==◌, update, ne→==-false, ==_refl,
  Bool-cases, inl, inr,
}
use p.Paging.{Vm, set_entry, or7, deflag}
use p.Paging.View.{pte, IsDirectory, IsNew, SetsPage}

module _ (vm : Vm) (pd i j e : ℕ) where
  -- A table of the directory is written: the page itself, and the pages of other regions.
  module _ (is : IsDirectory vm pd) (used : vm.tables pd i ≢ 0) where
    abbrev table : ℕ
    table = deflag (vm.tables pd i)

    apart : (pd == table) ≡ false
    apart = ne→==-false pd table (λ h. is.own i used (sym h))

    set_entry-here :
        (j' : ℕ) → pte (set_entry table j e vm) pd i j' ≡ (if j' == j then e else pte vm pd i j')
    set_entry-here j' = rw (apart, ne→==-false (vm.tables pd i) 0 used, ==_refl table)

    set_entry-other : (i' j' : ℕ) → i' ≢ i → pte (set_entry table j e vm) pd i' j' ≡ pte vm pd i' j'
    set_entry-other i' j' ne = elim (Bool-cases (vm.tables pd i' == 0)) [
      | inl empty ↦ rw (apart, empty)
      | inr full ↦
          let t' = deflag (vm.tables pd i') in
          let other : (t' == table) ≡ false =
            ne→==-false t' table (is.distinct i' i ne (ground arith) used) in
          rw (apart, full, other)
    ]

    pub set_entry-pte : SetsPage (pte vm pd) (pte (set_entry table j e vm) pd) i j e
    set_entry-pte i' j' = elim (Bool-cases (i' == i)) [
      | inl h ↦ let eq : i' ≡ i = ground arith in rw (eq, ==_refl i) (set_entry-here j')
      | inr h ↦ rw h (set_entry-other i' j' (ground arith))
    ]

    pub set_entry-tables : (k : ℕ) → (set_entry table j e vm).tables pd k ≡ vm.tables pd k
    set_entry-tables k = rw apart refl

    pub set_entry-IsDirectory : IsDirectory (set_entry table j e vm) pd
    set_entry-IsDirectory = record {
      own = λ k. rw apart (is.own k);
      distinct = λ k l. rw apart (is.distinct k l);
    }

  -- A new table is filled in and entered into the directory.
  module _ (t : ℕ) (is : IsDirectory vm pd) (new : IsNew vm pd t) (empty : vm.tables pd i ≡ 0) where
    abbrev entered : Vm
    entered =
        set_entry pd i (or7 t)
          (set_entry t j e (record vm { tables = update vm.tables t (λ k. 0) }))

    away : (pd == t) ≡ false
    away = ne→==-false pd t (λ h. new.not_directory (sym h))

    -- The flags come off again.
    deflag-or7 : deflag (or7 t) ≡ t
    deflag-or7 = omega (arith, new.aligned)

    filled : (or7 t == 0) ≡ false
    filled = ground arith

    directory : (k : ℕ) → entered.tables pd k ≡ (if k == i then or7 t else vm.tables pd k)
    directory k = rw (==_refl pd, away)

    new-here : (j' : ℕ) → pte entered pd i j' ≡ (if j' == j then e else pte vm pd i j')
    new-here j' = rw (
      directory i,
      ==_refl i,
      filled,
      deflag-or7,
      ne→==-false t pd new.not_directory,
      ==_refl t,
      empty,
    )

    new-other : (i' j' : ℕ) → (i' == i) ≡ false → pte entered pd i' j' ≡ pte vm pd i' j'
    new-other i' j' ne = elim (Bool-cases (vm.tables pd i' == 0)) [
      | inl vacant ↦ rw (directory i', ne, vacant)
      | inr full ↦
          let t' = deflag (vm.tables pd i') in
          let used : vm.tables pd i' ≢ 0 = ground arith in
          let other : (t' == t) ≡ false = ne→==-false t' t (new.unused i' used) in
          let off : (t' == pd) ≡ false = ne→==-false t' pd (is.own i' used) in
          rw (directory i', ne, full, off, other)
    ]

    pub new_entry-pte : SetsPage (pte vm pd) (pte entered pd) i j e
    new_entry-pte i' j' = elim (Bool-cases (i' == i)) [
      | inl h ↦ let eq : i' ≡ i = ground arith in rw (eq, ==_refl i) (new-here j')
      | inr h ↦ rw h (new-other i' j' h)
    ]

    pub new_entry-IsDirectory : IsDirectory entered pd
    new_entry-IsDirectory = record {
      own = λ k used. elim (Bool-cases (k == i)) [
        | inl h ↦ rw (directory k, h, deflag-or7) new.not_directory
        | inr h ↦ rw (directory k, h) (is.own k (rw (directory k, h) at used))
      ];
      distinct = λ k l ne uk ul. elim (Bool-cases (k == i)) [
        | inl hk ↦ elim (Bool-cases (l == i)) [
          | inl hl ↦ absurd (ne (ground arith))
          | inr hl ↦
              rw (directory k, hk, directory l, hl, deflag-or7)
                (λ same. new.unused l (rw (directory l, hl) at ul) (sym same))
        ]
        | inr hk ↦ elim (Bool-cases (l == i)) [
          | inl hl ↦
              rw (directory k, hk, directory l, hl, deflag-or7)
                (new.unused k (rw (directory k, hk) at uk))
          | inr hl ↦
              rw (directory k, hk, directory l, hl)
                (is.distinct k l ne (rw (directory k, hk) at uk) (rw (directory l, hl) at ul))
        ]
      ];
    }

    -- A table of the directory is one that was there, or the new one.
    pub new_entry-tables :
        (k : ℕ)
        → entered.tables pd k ≢ 0
        → ((vm.tables pd k ≢ 0) × (deflag (entered.tables pd k) ≡ deflag (vm.tables pd k)))
          ⊎ (deflag (entered.tables pd k) ≡ t)
    new_entry-tables k used = elim (Bool-cases (k == i)) [
      | inl h ↦ inr (rw (directory k, h) deflag-or7)
      | inr h ↦ inl (rw (directory k, h) at used, rw (directory k, h) refl)
    ]
