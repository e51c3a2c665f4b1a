-- ===== src/Fork/Table.antt =====
-- The loop of `sys_fork` over one page table.
use p.Base.{
  ℕ, zero, suc, ◌+◌, ◌*◌, ◌<◌, ◌≤◌, ◌≡◌, refl, sym, ◌∙◌, ◌≢◌, true, false, some, List, [], ◌∷◌,
  arith, ◌==◌, ◌&&◌, length, Bool-cases, inl, inr, ne→==-false, ==_refl,
}
use p.Frames.{page_size}
use p.Paging.{deflag, page_len}
use p.Fork.{get_flag, Slot, Forked, copy_page, copy_table}
use p.Fork.Translate.{IsRegion}
use p.Fork.Copy.{
  CanCopy, PageCopied-IsRegion, fewer-CanCopy, PageCopied, copy_page-PageCopied, PageCopied-CanCopy,
  Has, is_copied, TableCopied,
}

none-TableCopied : (f : Forked) (ct pt j : ℕ) → TableCopied f f ct pt j 0
none-TableCopied f ct pt j = record {
  copied = λ k h. absurd (ground (arith, h));
  kept = λ t k h. refl;
  counts = λ c h. refl;
  older = λ a b h. h;
  unshared = λ k k' h. absurd (ground (arith, h));
}

skipped_same :
    (tables : ℕ → ℕ → ℕ) (pt j n k : ℕ)
    → deflag (tables pt j) ≡ 0
    → is_copied tables pt (j + 1) n k ≡ is_copied tables pt j (suc n) k
skipped_same tables pt j n k empty = elim (Bool-cases (k == j)) [
  | inl h ↦ let at : k ≡ j = ground (arith, h) in rw at (ground (arith, empty))
  | inr h ↦ ground (arith, h)
]

-- An entry without an address is passed over.
skip-TableCopied :
    (f f' : Forked) (ct pt j n : ℕ)
    → deflag (f.vm.tables pt j) ≡ 0
    → TableCopied f f' ct pt (j + 1) n
    → TableCopied f f' ct pt j (suc n)
skip-TableCopied f f' ct pt j n empty r =
    let same : (k : ℕ)
        → is_copied f.vm.tables pt (j + 1) n k ≡ is_copied f.vm.tables pt j (suc n) k =
      λ k. skipped_same f.vm.tables pt j n k empty in
    record {
      copied = λ k h. r.copied k (same k ∙ h);
      kept = λ t k h. r.kept t k (rw (same k) h);
      counts = r.counts;
      older = r.older;
      unshared = λ k k' h h'. r.unshared k k' (same k ∙ h) (same k' ∙ h');
    }

-- The first page goes to frame `c`, and then the others are copied.
module _ (f f1 f' : Forked) (ct pt j n c q : ℕ) (apart : ct ≢ pt) (pos : 0 < c)
    (mapped : deflag (f.vm.tables pt j) ≢ 0) (was_free : f.vm.frames.refcount c ≡ 0)
    (p : PageCopied f f1 ct pt j c q) (rest : TableCopied f1 f' ct pt (j + 1) n) where
  source : (k : ℕ) → f1.vm.tables pt k ≡ f.vm.tables pt k
  source k = p.tables pt k ∙ (rw (ne→==-false pt ct (λ h. apart (sym h))) refl)

  used_now : f1.vm.frames.refcount c ≡ 1
  used_now = rw (p.counts, ==_refl c) refl

  copied_later :
      (k : ℕ)
      → (k == j) ≡ false
      → is_copied f.vm.tables pt j (suc n) k ≡ true
      → is_copied f1.vm.tables pt (j + 1) n k ≡ true
  copied_later k h inside = rw (source k) (ground (arith, h, inside))

  first_copied : f'.vm.tables ct j ≡ c * page_size + get_flag (f.vm.tables pt j)
  first_copied =
      rest.kept ct j (rw (==_refl ct) (ground arith))
      ∙ (p.tables ct j ∙ (rw (==_refl ct, ==_refl j) refl))

  later_copied :
      (k : ℕ)
      → (k == j) ≡ false
      → is_copied f.vm.tables pt j (suc n) k ≡ true
      → (d : ℕ) × (0 < d)
        × (d ≢ c)
        × (f.vm.frames.refcount d ≡ 0)
        × (f'.vm.tables ct k ≡ d * page_size + get_flag (f.vm.tables pt k))
        × (f'.vm.frames.refcount d ≡ 1)
        × Has (d * page_size) (deflag (f.vm.tables pt k)) f'.copies
  later_copied k h inside =
      let (d, lo, free, entry, counted, has) = rest.copied k (copied_later k h inside) in
      let ne : d ≢ c = λ e. omega (arith, (rw e at free), used_now) in
      (
        d,
        lo,
        ne,
        (rw (p.counts, ne→==-false d c ne) at free),
        (rw (source k) at entry),
        counted,
        (rw (source k) at has),
      )

  other_entry :
      (t k : ℕ)
      → ((t == ct) && is_copied f.vm.tables pt j (suc n) k) ≡ false
      → ((t == ct) && (k == j)) ≡ false
  other_entry t k out = elim (Bool-cases (k == j)) [
    | inl h ↦ let at : k ≡ j = ground (arith, h) in rw at (ground (arith, rw at at out, mapped))
    | inr h ↦ ground (arith, h)
  ]

  -- No later page has the frame of the first.
  first_alone :
      (k : ℕ)
      → (k == j) ≡ false
      → is_copied f.vm.tables pt j (suc n) k ≡ true
      → deflag (f'.vm.tables ct j) ≢ deflag (f'.vm.tables ct k)
  first_alone k h inside e =
      let (d, lo, ne, free, entry, counted, has) = later_copied k h inside in
      ne (omega (arith, (rw (first_copied, entry) at e)))

  first-TableCopied : TableCopied f f' ct pt j (suc n)
  first-TableCopied = record {
    copied = λ k inside. elim (Bool-cases (k == j)) [
      | inl h ↦
          let at : k ≡ j = ground (arith, h) in
          (
            c,
            pos,
            was_free,
            rw at first_copied,
            rest.counts c (omega (arith, used_now)) ∙ used_now,
            rw at (
                rest.older (c * page_size) (deflag (f.vm.tables pt j))
                  (rw p.copies (inl (refl, refl)))),
          )
      | inr h ↦
          let (d, lo, ne, free, entry, counted, has) = later_copied k h inside in
          (d, lo, free, entry, counted, has)
    ];
    kept = λ t k out.
        rest.kept t k (rw (source k) (ground (arith, out)))
        ∙ (p.tables t k ∙ (rw (other_entry t k out) refl));
    counts = λ d used.
        let ne : d ≢ c = λ e. used (rw e was_free) in
        let same : f1.vm.frames.refcount d ≡ f.vm.frames.refcount d =
          rw (p.counts, ne→==-false d c ne) refl in
        rest.counts d (λ e. used (sym same ∙ e)) ∙ same;
    older = λ a b has. rest.older a b (rw p.copies (inr has));
    unshared = λ k k' inside inside' e. elim (Bool-cases (k == j)) [
      | inl h ↦ elim (Bool-cases (k' == j)) [
        | inl h' ↦ ground (arith, h, h')
        | inr h' ↦
            let at : k ≡ j = ground (arith, h) in absurd (first_alone k' h' inside' (rw at at e))
      ]
      | inr h ↦ elim (Bool-cases (k' == j)) [
        | inl h' ↦
            let at : k' ≡ j = ground (arith, h') in
            absurd (first_alone k h inside (sym (rw at at e)))
        | inr h' ↦ rest.unshared k k' (copied_later k h inside) (copied_later k' h' inside') e
      ]
    ];
  }

-- When the slot is a vacant entry of one of the parent's tables, the child's table is a page
-- that neither the slot, the parent's directory nor the table to be copied is in, frame c is
-- next to be handed out, and at least as many frames as there are rounds are free behind it,
-- the table is that of region i of the parent's directory, whose pages the processor translates
-- as the directory says, and it keeps no translation of the slot's page: the loop of sys_fork
-- over a page table, with no entry behind the last, returns 0; then each entry of the range
-- that has an address has a copy in the child's table, with the same flags and a frame of its
-- own that was free, has one user, and to which memcpy, through the two virtual addresses, has
-- copied the parent's frame; all other words of the child's table and of every other page, the
-- parent's tables among them, are as before, and no frame in use has lost or gained a user.
pub copy_table-TableCopied :
    (memalign : ℕ → ℕ) (pd : ℕ) (e : Slot) (ct i pt n j : ℕ) (f : Forked) (c : ℕ) (ks : List ℕ)
    → CanCopy f.vm pd e ct pt c ks
    → IsRegion f pd e i pt
    → j + n ≤ page_len
    → n ≤ length ks
    → (f' : Forked) × (copy_table memalign pd e ct i pt n j f ≡ some (0, f'))
      × TableCopied f f' ct pt j n
unfolding copy_table copy_page
copy_table-TableCopied memalign pd e ct i pt zero j f c ks can is inside enough =
    (f, refl, none-TableCopied f ct pt j)
copy_table-TableCopied memalign pd e ct i pt (suc n) j f c [] can is inside enough =
    absurd (omega arith)
copy_table-TableCopied memalign pd e ct i pt (suc n) j f c (k ∷ ks) can is inside enough =
    elim (Bool-cases (deflag (f.vm.tables pt j) == 0)) [
      | inl h ↦
          let (f', e', rest) =
            copy_table-TableCopied memalign pd e ct i pt n (j + 1) f c ks
              (fewer-CanCopy f.vm pd e ct pt c k ks can) is (omega (arith, inside))
              (omega (arith, enough)) in
          (f', rw (copy_page, h) e', skip-TableCopied f f' ct pt j n (ground (arith, h)) rest)
      | inr h ↦
          let mapped : deflag (f.vm.tables pt j) ≢ 0 = ground (arith, h) in
          let (f1, q, one, p) =
            copy_page-PageCopied memalign pd e ct i pt j c k ks f can is (omega (arith, inside))
              mapped in
          let (f', e', rest) =
            copy_table-TableCopied memalign pd e ct i pt n (j + 1) f1 q ks
              (PageCopied-CanCopy pd e ct pt j c q k ks f f1 can p)
              (PageCopied-IsRegion pd e ct i pt j c q k ks f f1 can p is) (omega (arith, inside))
              (omega (arith, enough)) in
          (
            f',
            rw one e',
            first-TableCopied f f1 f' ct pt j n c q can.child_pt can.not_first mapped
                can.frames.free p rest,
          )
    ]
