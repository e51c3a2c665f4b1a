-- ===== src/Paging/Destroy.antt =====
-- `destroy_page_directory` of kern/memory/vm_routines.c takes every page of the user regions away.
use p.Base.{
  ℕ, leb, ltb, zero, suc, ◌+◌, ◌-◌, ◌*◌, ◌/◌, ◌<◌, ◌≤◌, ◌≡◌, refl, sym, ◌∙◌, ◌≢◌, false, ◌&&◌,
  arith, if◌then◌else◌, ◌==◌, Bool-cases, inl, inr, ne→==-false, ==_refl, ap,
}
use p.Paging.{
  Vm, page_len, deflag, set_entry, virtual_unmap_physical, destroy_entries, destroy_page_table,
  destroy_tables, destroy_page_directory,
}
use mathlib.Core.Path.{subst}
use p.Frames.{release_free_frame}
use p.Paging.View.{pte, IsDirectory, in_range}
use p.Paging.Ranges.{held-append, held-none, Frees-IsCovered, Frees-append}
use p.Paging.Free.{
  IsCovered, Frees, FreesOne, unmap-FreesOne, none-Frees, FreesOne-IsCovered, first-Frees,
  covered_first,
}

unmap-tables :
    (vm : Vm) (pd r c k : ℕ)
    → IsDirectory vm pd
    → (virtual_unmap_physical pd r c vm).1.tables pd k ≡ vm.tables pd k
unfolding virtual_unmap_physical
unmap-tables vm pd r c k is = elim (Bool-cases (vm.tables pd r == 0)) [
  | inl h ↦ rw h refl
  | inr h ↦
      let apart : (pd == deflag (vm.tables pd r)) ≡ false =
        ne→==-false pd (deflag (vm.tables pd r)) (λ e. is.own r (ground (arith, h)) (sym e)) in
      ground (arith, h, apart)
]

-- A round of `destroy_page_table` does what `virtual_unmap_physical` does to the page.
destroy_one :
    (vm : Vm) (pd r i : ℕ)
    → vm.tables pd r ≢ 0
    → (if vm.tables (deflag (vm.tables pd r)) i == 0
        then vm
        else set_entry (deflag (vm.tables pd r)) i 0 (record vm {
          frames = release_free_frame (deflag (vm.tables (deflag (vm.tables pd r)) i)) vm.frames;
        }))
      ≡ (virtual_unmap_physical pd r i vm).1
unfolding virtual_unmap_physical
destroy_one vm pd r i used =
    rw (ne→==-false (vm.tables pd r) 0 used)
      (elim (Bool-cases (vm.tables (deflag (vm.tables pd r)) i == 0)) [
        | inl h ↦ rw h refl
        | inr h ↦ rw h refl
      ])

destroy_entries-Frees :
    (vm : Vm) (pd r n i : ℕ)
    → IsDirectory vm pd
    → vm.tables pd r ≢ 0
    → i + n ≤ page_len
    → IsCovered vm pd (r * page_len + i) n
    → let vm' = destroy_entries (deflag (vm.tables pd r)) n i vm in
      Frees vm vm' pd (r * page_len + i) n × ((k : ℕ) → vm'.tables pd k ≡ vm.tables pd k)
unfolding destroy_entries
destroy_entries-Frees vm pd r zero i is used inside covered =
    (none-Frees vm pd (r * page_len + i) is, λ k. refl)
destroy_entries-Frees vm pd r (suc n) i is used inside covered =
    let s = r * page_len + i in
    let vm1 = (virtual_unmap_physical pd r i vm).1 in
    let o : FreesOne vm vm1 pd s =
      unmap-FreesOne vm pd r i s is refl (omega (arith, inside))
        (covered_first vm pd s n covered) in
    let same : (k : ℕ) → vm1.tables pd k ≡ vm.tables pd k = λ k. unmap-tables vm pd r i k is in
    let next : r * page_len + (i + 1) ≡ s + 1 = omega arith in
    let (rest, words) =
      destroy_entries-Frees vm1 pd r n (i + 1) o.directory (rw (same r) used)
        (omega (arith, inside)) (rw next (FreesOne-IsCovered vm vm1 pd s n o covered)) in
    let vm' = destroy_entries (deflag (vm1.tables pd r)) n (i + 1) vm1 in
    let step : destroy_entries (deflag (vm.tables pd r)) (suc n) i vm ≡ vm' =
      ap (destroy_entries (deflag (vm.tables pd r)) n (i + 1)) (destroy_one vm pd r i used)
      ∙ ap (λ t. destroy_entries (deflag t) n (i + 1) vm1) (sym (same r)) in
    subst (λ v. Frees vm v pd s (suc n) × ((k : ℕ) → v.tables pd k ≡ vm.tables pd k)) (sym step)
      (first-Frees vm vm1 pd s n o vm' (rw next at rest), λ k. words k ∙ same k)

region_range : (i a b : ℕ) → b < page_len → in_range (i * page_len) page_len a b ≡ (a == i)
region_range i a b hb = elim (Bool-cases (a == i)) [
  | inl h ↦ let e : a ≡ i = ground (arith, h) in rw (e, ==_refl i) (ground (arith, hb))
  | inr h ↦ rw h (ground (arith, h, hb))
]

cleared_range :
    (i a b x : ℕ)
    → b < page_len
    → (if a == i then 0 else (if in_range (i * page_len) page_len a b then 0 else x))
      ≡ (if in_range (i * page_len) page_len a b then 0 else x)
cleared_range i a b x hb = rw (region_range i a b hb) (ground arith)

module _ (vm1 : Vm) (pd i : ℕ) where
  cleared_word :
      (k : ℕ) → (set_entry pd i 0 vm1).tables pd k ≡ (if k == i then 0 else vm1.tables pd k)
  cleared_word k = rw (==_refl pd) refl

  still_used :
      (k : ℕ)
      → (set_entry pd i 0 vm1).tables pd k ≢ 0
      → ((k == i) ≡ false) × ((set_entry pd i 0 vm1).tables pd k ≡ vm1.tables pd k)
  still_used k ne = elim (Bool-cases (k == i)) [
    | inl h ↦ absurd (ne (cleared_word k ∙ rw h refl))
    | inr h ↦ (h, cleared_word k ∙ rw h refl)
  ]

  cleared-IsDirectory : IsDirectory vm1 pd → IsDirectory (set_entry pd i 0 vm1) pd
  cleared-IsDirectory is = record {
    own = λ k ne.
        let (h, e) = still_used k ne in λ bad. is.own k (λ z. ne (e ∙ z)) (ap deflag (sym e) ∙ bad);
    distinct = λ k l apart hk hl bad.
        let (h, e) = still_used k hk in
        let (h', e') = still_used l hl in
        is.distinct k l apart (λ z. hk (e ∙ z)) (λ z. hl (e' ∙ z))
          (ap deflag (sym e) ∙ (bad ∙ ap deflag e'));
  }

  cleared-pte :
      IsDirectory vm1 pd
      → (a b : ℕ) → pte (set_entry pd i 0 vm1) pd a b ≡ (if a == i then 0 else pte vm1 pd a b)
  cleared-pte is a b = elim (Bool-cases (a == i)) [
    | inl h ↦ rw (==_refl pd, h) refl
    | inr h ↦
        rw (==_refl pd, h)
          (elim (Bool-cases (vm1.tables pd a == 0)) [
            | inl z ↦ rw z refl
            | inr z ↦
                let off : (deflag (vm1.tables pd a) == pd) ≡ false =
                  ne→==-false (deflag (vm1.tables pd a)) pd (is.own a (ground (arith, z))) in
                rw (z, off) refl
          ])
  ]

  -- The directory's word for a region is cleared, whose pages are gone.
  cleared-Frees :
      (vm : Vm)
      → Frees vm vm1 pd (i * page_len) page_len
      → Frees vm (set_entry pd i 0 vm1) pd (i * page_len) page_len
  cleared-Frees vm d = record {
    directory = cleared-IsDirectory d.directory;
    pages = λ a b hb.
        cleared-pte d.directory a b
        ∙ (rw (d.pages a b hb) (cleared_range i a b (pte vm pd a b) hb));
    counts = d.counts;
  }

-- A region without a table has no pages.
empty-Frees :
    (vm : Vm) (pd i : ℕ)
    → IsDirectory vm pd
    → vm.tables pd i ≡ 0
    → Frees vm vm pd (i * page_len) page_len
empty-Frees vm pd i is empty = record {
  directory = is;
  pages = λ a b hb. rw (region_range i a b hb) (elim (Bool-cases (a == i)) [
    | inl h ↦ let e : a ≡ i = ground (arith, h) in rw (h, e, empty) refl
    | inr h ↦ rw h refl
  ]);
  counts = λ f.
      rw
        (held-none vm pd (i * page_len) page_len f
          (λ p lo hi. let e : p / page_len ≡ i = omega (arith, lo, hi) in rw (e, empty) refl))
        (omega arith);
}

-- A round of `destroy_page_directory`.
abbrev round : ℕ → ℕ → Vm → Vm
round pd i vm =
    if vm.tables pd i == 0
    then vm
    else set_entry pd i 0 (destroy_page_table (deflag (vm.tables pd i)) vm)

round-Frees :
    (vm : Vm) (pd i : ℕ)
    → IsDirectory vm pd
    → IsCovered vm pd (i * page_len) page_len
    → Frees vm (round pd i vm) pd (i * page_len) page_len
      × ((k : ℕ) → (round pd i vm).tables pd k ≡ (if k == i then 0 else vm.tables pd k))
unfolding destroy_page_table
round-Frees vm pd i is covered = elim (Bool-cases (vm.tables pd i == 0)) [
  | inl h ↦
      let empty : vm.tables pd i ≡ 0 = ground (arith, h) in
      rw h (empty-Frees vm pd i is empty, λ k. word k empty)
  | inr h ↦
      let used : vm.tables pd i ≢ 0 = ground (arith, h) in
      let start : i * page_len + 0 ≡ i * page_len = omega arith in
      let (d, words) =
        destroy_entries-Frees vm pd i page_len 0 is used (omega arith) (rw start covered) in
      let vm1 = destroy_entries (deflag (vm.tables pd i)) page_len 0 vm in
      rw h (
        cleared-Frees vm1 pd i vm (rw start at d),
        λ k. cleared_word vm1 pd i k ∙ rw (words k) refl,
      )
]
  where
    word : (k : ℕ) → vm.tables pd i ≡ 0 → vm.tables pd k ≡ (if k == i then 0 else vm.tables pd k)
    word k empty = elim (Bool-cases (k == i)) [
      | inl h ↦ let e : k ≡ i = ground (arith, h) in rw (h, e) empty
      | inr h ↦ rw h refl
    ]

destroy_tables-Frees :
    (vm : Vm) (pd n i : ℕ)
    → IsDirectory vm pd
    → IsCovered vm pd (i * page_len) (n * page_len)
    → let vm' = destroy_tables pd n i vm in
      Frees vm vm' pd (i * page_len) (n * page_len)
      × ((k : ℕ) → vm'.tables pd k ≡ (if leb i k && ltb k (i + n) then 0 else vm.tables pd k))
unfolding destroy_tables
destroy_tables-Frees vm pd zero i is covered =
    let e : 0 * page_len ≡ 0 = omega arith in
    (rw e (none-Frees vm pd (i * page_len) is), λ k. ground arith)
destroy_tables-Frees vm pd (suc n) i is covered =
    let long : suc n * page_len ≡ page_len + n * page_len = omega arith in
    let next : (i + 1) * page_len ≡ i * page_len + page_len = omega arith in
    let vm1 = round pd i vm in
    let covered' : IsCovered vm pd (i * page_len) (page_len + n * page_len) = rw long at covered in
    let here : IsCovered vm pd (i * page_len) page_len = λ f. (
      omega (arith, (covered' f).0, held-append vm pd (i * page_len) page_len (n * page_len) f),
      (covered' f).1,
    ) in
    let (d, words) = round-Frees vm pd i is here in
    let behind = Frees-IsCovered vm vm1 pd (i * page_len) page_len (n * page_len) d covered' in
    let (rest, words') = destroy_tables-Frees vm1 pd n (i + 1) d.directory (rw next behind) in
    let vm' = destroy_tables pd n (i + 1) vm1 in
    (
      rw long
          (Frees-append vm vm1 pd (i * page_len) page_len (n * page_len) d vm' (rw next at rest)),
      λ k. words' k ∙ rw (words k) (cleared_words n i k (vm.tables pd k)),
    )
  where
    cleared_words :
        (n i k x : ℕ)
        → (if leb (i + 1) k && ltb k (i + 1 + n) then 0 else (if k == i then 0 else x))
          ≡ (if leb i k && ltb k (i + suc n) then 0 else x)
    cleared_words n i k x = ground arith

-- The user's regions are those from 4 on.
pub destroy_page_directory-Frees :
    (vm : Vm) (pd : ℕ)
    → IsDirectory vm pd
    → IsCovered vm pd (4 * page_len) ((page_len - 4) * page_len)
    → let vm' = destroy_page_directory pd vm in
      Frees vm vm' pd (4 * page_len) ((page_len - 4) * page_len)
      × ((k : ℕ) → vm'.tables pd k ≡ (if leb 4 k && ltb k page_len then 0 else vm.tables pd k))
unfolding destroy_page_directory
destroy_page_directory-Frees vm pd is covered =
    let (d, words) = destroy_tables-Frees vm pd (page_len - 4) 4 is covered in (d, words)
