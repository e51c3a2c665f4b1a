-- ===== src/Fork/Copy.antt =====
-- A page table is copied page by page, each to a frame of its own.
use p.Base.{
  ◌⊎◌, leb, ltb, not, none, ap, ℕ, ◌+◌, ◌*◌, ◌<◌, ◌≡◌, refl, sym, ◌∙◌, ◌≢◌, Bool, true, false, some,
  List, [], ◌∷◌, arith, ◌==◌, ◌&&◌, if◌then◌else◌, update, ne→==-false, ==_refl,
}
use p.Frames.{page_size}
use p.Frames.Search.{FirstFree}
use p.Frames.Acquire.{At, acquire-Handed}
use p.Paging.{Vm, deflag, or7, set_entry, page_len}
use p.Paging.Map.{in_table, vm1, map-in_table}
use p.Paging.Range.{AllFree, AllFree-after, first_behind}
use p.Fork.{
  get_flag, Slot, Forked, copy_page, page_addr, translate, touch, memcpy_page, set_cr3, walk_tables,
}
use p.Fork.Translate.{
  IsRegion, page_addr-apart, walk_tables-page_addr, memcpy_page-copies, other_word,
  same_translation,
}

AllFree-tail :
    (refcount : ℕ → ℕ) (c k : ℕ) (ks : List ℕ) → AllFree refcount c (k ∷ ks) → AllFree refcount c ks
AllFree-tail refcount c k [] f = tt
AllFree-tail refcount c k (m ∷ ms) f = (omega (arith, f.0, f.3.0), f.3.1, f.3.2, f.3.3)

-- The slot is a vacant entry of a table of the parent's directory at `pd`; the child's table at
-- `ct` is none of the pages involved; frame `c` is next to be handed out, with the frames `ks`
-- free behind it.
pub record CanCopy (vm : Vm) (pd : ℕ) (e : Slot) (ct pt c : ℕ) (ks : List ℕ) : Type 0 where
  pub used : vm.tables pd e.pd_index ≢ 0
  pub not_pd : deflag (vm.tables pd e.pd_index) ≢ pd
  pub vacant : vm.tables (deflag (vm.tables pd e.pd_index)) e.pt_index ≡ 0
  pub child_pd : ct ≢ pd
  pub child_slot : ct ≢ deflag (vm.tables pd e.pd_index)
  pub child_pt : ct ≢ pt
  pub frames : At vm.frames c
  pub not_first : 0 < c
  pub free : AllFree vm.frames.refcount c ks

-- The loop has one frame less to take when it passes over an entry.
pub fewer-CanCopy :
    (vm : Vm) (pd : ℕ) (e : Slot) (ct pt c k : ℕ) (ks : List ℕ)
    → CanCopy vm pd e ct pt c (k ∷ ks)
    → CanCopy vm pd e ct pt c ks
fewer-CanCopy vm pd e ct pt c k ks can = record {
  used = can.used;
  not_pd = can.not_pd;
  vacant = can.vacant;
  child_pd = can.child_pd;
  child_slot = can.child_slot;
  child_pt = can.child_pt;
  frames = can.frames;
  not_first = can.not_first;
  free = AllFree-tail vm.frames.refcount c k ks can.free;
}

-- What one round has done with the page of entry `j`: frame `c` is its copy.
pub record PageCopied (f f' : Forked) (ct pt j c q : ℕ) : Type 0 where
  pub tables :
      (t k : ℕ)
      → f'.vm.tables t k ≡ (
          if (t == ct) && (k == j)
          then c * page_size + get_flag (f.vm.tables pt j)
          else f.vm.tables t k)
  pub counts : f'.vm.frames.refcount ≡ update f.vm.frames.refcount c 1
  pub next : At f'.vm.frames q
  pub first : FirstFree (update f.vm.frames.refcount c 1) c q
  pub copies : f'.copies ≡ (c * page_size, deflag (f.vm.tables pt j)) ∷ f.copies
  pub flushed : (v : ℕ) → f'.tlb v ≡ none

-- The slot's entry is written and cleared again, and one entry of the child's table is written.
written_once :
    (tables : ℕ → ℕ → ℕ) (ft s ct j a b t k : ℕ)
    → tables ft s ≡ 0
    → ct ≢ ft
    → (let t1 = update tables ft (update (tables ft) s a) in
        let t2 = update t1 ct (update (t1 ct) j b) in update t2 ft (update (t2 ft) s 0) t k)
      ≡ (if (t == ct) && (k == j) then b else tables t k)
written_once tables ft s ct j a b t k vacant ne = ground (arith, vacant, ne)

pub copy_page-PageCopied :
    (memalign : ℕ → ℕ) (pd : ℕ) (e : Slot) (ct i pt j c k : ℕ) (ks : List ℕ) (f : Forked)
    → CanCopy f.vm pd e ct pt c (k ∷ ks)
    → IsRegion f pd e i pt
    → j < page_len
    → deflag (f.vm.tables pt j) ≢ 0
    → (f' : Forked) × (q : ℕ) × (copy_page memalign pd e ct i pt j f ≡ some (0, f'))
      × PageCopied f f' ct pt j c q
unfolding copy_page
copy_page-PageCopied memalign pd e ct i pt j c k ks f can is inside mapped =
    let (g, q, got, h, at) =
      acquire-Handed f.vm.frames c k can.frames can.free.0 can.free.1 can.free.2 in
    let raw = f.vm.tables pt j in
    let ft = deflag (f.vm.tables pd e.pd_index) in
    let a = c * page_size in
    let real : (a == 0) ≡ false = ground (arith, can.not_first) in
    let mapping =
      map-in_table memalign f.vm pd e.pd_index e.pt_index a g got real
        (ne→==-false (f.vm.tables pd e.pd_index) 0 can.used) can.vacant in
    let vm' =
      in_table (vm1 memalign f.vm pd e.pd_index e.pt_index a g) pd e.pd_index e.pt_index a in
    let apart : (pd == ft) ≡ false = ne→==-false pd ft (λ h. can.not_pd (sym h)) in
    let unflagged : deflag (or7 a) ≡ a = omega arith in
    let f1 : Forked = record f { vm = vm' } in
    let slot = page_addr e.pd_index e.pt_index in
    let f2 = memcpy_page pd slot (page_addr i j) (touch pd slot f1) in
    let f' : Forked =
      set_cr3
        (record f2 { vm = set_entry ft e.pt_index 0 (set_entry ct j (a + get_flag raw) vm') }) in
    let not_there : (pt ≡ ft) × (j ≡ e.pt_index) → ⊥ =
      λ h. mapped (rw (h.0, h.1, can.vacant) refl) in
    let not_slot : (i ≡ e.pd_index) × (j ≡ e.pt_index) → ⊥ =
      λ h. mapped (rw (sym is.region, h.0, h.1, can.vacant) refl) in
    let pages = memcpy_page-copies pd (page_addr i j) slot f1 is.unseen (
      page_addr-apart i j e.pd_index e.pt_index is.region_inside inside is.slot_inside.0
        is.slot_inside.1 not_slot) in
    let to : walk_tables pd slot vm' ≡ a =
      walk_tables-page_addr pd e.pd_index e.pt_index vm' is.slot_inside.0 is.slot_inside.1
      ∙ rw (apart, ==_refl ft, ==_refl e.pt_index) unflagged in
    let entry : walk_tables pd (page_addr i j) vm' ≡ deflag raw =
      walk_tables-page_addr pd i j vm' is.region_inside inside
      ∙ rw (apart, is.region)
          (ap deflag (other_word f.vm.tables ft e.pt_index (or7 a) pt j not_there)) in
    let from : translate pd (page_addr i j) f1 ≡ deflag raw =
      same_translation (f.tlb (page_addr i j)) (walk_tables pd (page_addr i j) f.vm)
        (walk_tables pd (page_addr i j) vm') (deflag raw) (is.translated j inside) entry in
    (
      f',
      q,
      rw
          (
            copy_page,
            ne→==-false (deflag raw) 0 mapped,
            mapping,
            apart,
            ==_refl ft,
            ==_refl e.pt_index,
            unflagged,
          )
          refl,
      record {
        tables = λ t k.
            written_once f.vm.tables ft e.pt_index ct j (or7 a) (a + get_flag raw) t k can.vacant
              can.child_slot;
        counts = h.counts;
        next = at;
        first = h.first;
        copies = pages ∙ rw (to, from) refl;
        flushed = λ v. refl;
      },
    )

pub PageCopied-CanCopy :
    (pd : ℕ) (e : Slot) (ct pt j c q k : ℕ) (ks : List ℕ) (f f' : Forked)
    → CanCopy f.vm pd e ct pt c (k ∷ ks)
    → PageCopied f f' ct pt j c q
    → CanCopy f'.vm pd e ct pt q ks
PageCopied-CanCopy pd e ct pt j c q k ks f f' can p =
    let off : (pd == ct) ≡ false = ne→==-false pd ct (λ h. can.child_pd (sym h)) in
    let directory : (i : ℕ) → f'.vm.tables pd i ≡ f.vm.tables pd i =
      λ i. p.tables pd i ∙ (rw off refl) in
    let slot = directory e.pd_index in
    let ft = deflag (f.vm.tables pd e.pd_index) in
    let off' : (ft == ct) ≡ false = ne→==-false ft ct (λ h. can.child_slot (sym h)) in
    let near = first_behind f.vm.frames.refcount c q k p.first can.free.0 can.free.2 in
    record {
      used = rw slot can.used;
      not_pd = rw slot can.not_pd;
      vacant = rw slot (p.tables ft e.pt_index ∙ (rw off' can.vacant));
      child_pd = can.child_pd;
      child_slot = rw slot can.child_slot;
      child_pt = can.child_pt;
      frames = p.next;
      not_first = omega (arith, can.not_first, p.first.behind);
      free =
          rw p.counts (
            AllFree-after f.vm.frames.refcount c q k ks can.free.3 (omega (arith, can.free.0))
              near);
    }

-- Behind a round the processor keeps no translation, and the parent's tables are as they were.
pub PageCopied-IsRegion :
    (pd : ℕ) (e : Slot) (ct i pt j c q k : ℕ) (ks : List ℕ) (f f' : Forked)
    → CanCopy f.vm pd e ct pt c (k ∷ ks)
    → PageCopied f f' ct pt j c q
    → IsRegion f pd e i pt
    → IsRegion f' pd e i pt
PageCopied-IsRegion pd e ct i pt j c q k ks f f' can p is =
    let off : (pd == ct) ≡ false = ne→==-false pd ct (λ h. can.child_pd (sym h)) in
    let region : deflag (f'.vm.tables pd i) ≡ pt =
      ap deflag (p.tables pd i ∙ rw off refl) ∙ is.region in
    record {
      region = region;
      region_inside = is.region_inside;
      slot_inside = is.slot_inside;
      translated = λ k inside.
          rw (translate, p.flushed (page_addr i k))
            (walk_tables-page_addr pd i k f'.vm is.region_inside inside ∙ rw region refl);
      unseen = p.flushed (page_addr e.pd_index e.pt_index);
    }

-- Frame `b` has been copied to frame `a`.
abbrev pub Has : ℕ → ℕ → List (ℕ × ℕ) → Type 0
Has a b [] = ⊥
Has a b ((x, y) ∷ cs) = ((x ≡ a) × (y ≡ b)) ⊎ Has a b cs

-- Entry `k` is one of the `n` from `j` on, and has an address.
abbrev pub is_copied : (ℕ → ℕ → ℕ) → ℕ → ℕ → ℕ → ℕ → Bool
is_copied tables pt j n k = leb j k && ltb k (j + n) && not (deflag (tables pt k) == 0)

pub record TableCopied (f f' : Forked) (ct pt j n : ℕ) : Type 0 where
  pub copied :
      (k : ℕ)
      → is_copied f.vm.tables pt j n k ≡ true
      → (c : ℕ) × (0 < c)
        × (f.vm.frames.refcount c ≡ 0)
        × (f'.vm.tables ct k ≡ c * page_size + get_flag (f.vm.tables pt k))
        × (f'.vm.frames.refcount c ≡ 1)
        × Has (c * page_size) (deflag (f.vm.tables pt k)) f'.copies
  pub kept :
      (t k : ℕ)
      → ((t == ct) && is_copied f.vm.tables pt j n k) ≡ false
      → f'.vm.tables t k ≡ f.vm.tables t k
  pub counts :
      (c : ℕ) → f.vm.frames.refcount c ≢ 0 → f'.vm.frames.refcount c ≡ f.vm.frames.refcount c
  pub older : (a b : ℕ) → Has a b f.copies → Has a b f'.copies
  pub unshared :
      (k k' : ℕ)
      → is_copied f.vm.tables pt j n k ≡ true
      → is_copied f.vm.tables pt j n k' ≡ true
      → deflag (f'.vm.tables ct k) ≡ deflag (f'.vm.tables ct k')
      → k ≡ k'
