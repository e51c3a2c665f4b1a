-- ===== src/Paging/Unmap.antt =====
-- `virtual_unmap_physical` takes one page away, and undoes `virtual_map_physical`.
use p.Base.{
  ℕ, ◌-◌, ◌*◌, ◌<◌, ◌≡◌, refl, sym, ◌≢◌, ◌∙◌, true, false, some, arith, if◌then◌else◌, ◌==◌, ◌&&◌,
  update, ne→==-false, ==_refl, Bool-cases, inl, inr,
}
use mathlib.Core.Path.{ap₂}
use p.Frames.{release_free_frame, page_size, total_frames}
use p.Frames.Release.{release-counts}
use p.Paging.{Vm, set_entry, deflag, minus_one, virtual_map_physical, virtual_unmap_physical}
use p.Paging.View.{pte, IsDirectory, SetsPage}
use p.Paging.Entry.{set_entry-pte, set_entry-IsDirectory}
use p.Paging.Map.{user_entry, CanMap, map-Maps}

-- What has changed when page `(i, j)` has been unmapped.
pub record Unmaps (vm vm' : Vm) (pd i j : ℕ) : Type 0 where
  pub page : SetsPage (pte vm pd) (pte vm' pd) i j 0
  pub directory : IsDirectory vm' pd
  pub frames : vm'.frames ≡ release_free_frame (deflag (pte vm pd i j)) vm.frames

-- For a page directory whose tables are distinct pages, virtual_unmap_physical of a page that
-- is mapped returns 0, clears that page's entry and no other, keeps the tables distinct, and
-- releases the frame that the entry held.
pub unmap-Unmaps :
    (vm : Vm) (pd i j : ℕ)
    → IsDirectory vm pd
    → pte vm pd i j ≢ 0
    → let (status, vm') = virtual_unmap_physical pd i j vm in (status ≡ 0) × Unmaps vm vm' pd i j
unfolding virtual_unmap_physical
unmap-Unmaps vm pd i j is mapped = elim (Bool-cases (vm.tables pd i == 0)) [
  | inl empty ↦ absurd (mapped (rw empty refl))
  | inr full ↦
      let f' = release_free_frame (deflag (vm.tables (deflag (vm.tables pd i)) j)) vm.frames in
      let vm1 : Vm = record vm { frames = f' } in
      let used : vm.tables pd i ≢ 0 = ground arith in
      let there : (vm.tables (deflag (vm.tables pd i)) j == 0) ≡ false =
        ne→==-false (vm.tables (deflag (vm.tables pd i)) j) 0 (rw full at mapped) in
      let dir : IsDirectory vm1 pd = record { own = is.own; distinct = is.distinct } in
      let dir' = set_entry-IsDirectory vm1 pd i j 0 dir used in
      let page = set_entry-pte vm1 pd i j 0 dir used in
      let after : Vm = set_entry (deflag (vm.tables pd i)) j 0 vm1 in
      let done : Unmaps vm after pd i j = record {
        page = page;
        directory = record { own = dir'.own; distinct = dir'.distinct };
        frames = rw full refl;
      } in
      rw (full, there) (refl, done)
]

pub unmap_refuses :
    (vm : Vm) (pd i j : ℕ) → pte vm pd i j ≡ 0 → virtual_unmap_physical pd i j vm ≡ (minus_one, vm)
unfolding virtual_unmap_physical
unmap_refuses vm pd i j gone = elim (Bool-cases (vm.tables pd i == 0)) [
  | inl empty ↦ rw empty refl
  | inr full ↦ rw (full, rw full at gone) refl
]

unflagged : (c : ℕ) → deflag (user_entry c) ≡ c * page_size
unflagged c = omega arith

restored : (r : ℕ → ℕ) (c f : ℕ) → r c ≡ 0 → update (update r c 1) c (update r c 1 c - 1) f ≡ r f
restored r c f free = ground arith

undo_page :
    (view view' : ℕ → ℕ → ℕ) (i j e : ℕ)
    → SetsPage view view' i j e
    → view i j ≡ 0
    → (i' j' : ℕ) → (if (i' == i) && (j' == j) then 0 else view' i' j') ≡ view i' j'
undo_page view view' i j e page vacant i' j' = elim (Bool-cases ((i' == i) && (j' == j))) [
  | inl here ↦ let (at_i, at_j) = both i' i j' j here in rw here (sym (ap₂ view at_i at_j ∙ vacant))
  | inr other ↦ rw other (page i' j' ∙ rw other refl)
]
  where
    both : (a b c d : ℕ) → (a == b) && (c == d) ≡ true → (a ≡ b) × (c ≡ d)
    both a b c d h = (ground arith, ground arith)

-- Under the conditions under which virtual_map_physical maps a page that is not mapped,
-- virtual_unmap_physical of the same page then returns 0 and brings back the entry of every
-- page and the reference count of every frame.
pub unmap-map :
    (memalign : ℕ → ℕ) (vm : Vm) (pd i j c k : ℕ)
    → CanMap memalign vm pd c k
    → pte vm pd i j ≡ 0
    → (vm' : Vm) × (virtual_map_physical memalign pd i j vm ≡ some (0, vm'))
      × ((virtual_unmap_physical pd i j vm').0 ≡ 0)
      × ((i' j' : ℕ) → pte (virtual_unmap_physical pd i j vm').1 pd i' j' ≡ pte vm pd i' j')
      × ((f : ℕ) → (virtual_unmap_physical pd i j vm').1.frames.refcount f ≡ vm.frames.refcount f)
unmap-map memalign vm pd i j c k can vacant =
    let (vm', e, maps) = map-Maps memalign vm pd i j c k can vacant in
    let entry : pte vm' pd i j ≡ user_entry c = maps.page i j ∙ rw (==_refl i, ==_refl j) refl in
    let (status, undone) =
      unmap-Unmaps vm' pd i j maps.directory (rw entry (λ h. absurd (omega arith))) in
    let inside : c < total_frames = can.frames.inside in
    let one : vm'.frames.refcount c ≡ 1 = rw maps.counts (rw (==_refl c) refl) in
    (
      vm',
      e,
      status,
      λ i' j'.
          undone.page i' j'
          ∙ undo_page (pte vm pd) (pte vm' pd) i j (user_entry c) maps.page vacant i' j',
      λ f.
          rw
            (
              undone.frames,
              entry,
              unflagged c,
              release-counts vm'.frames c (rw one (omega arith)) (rw one (omega arith)),
              maps.counts,
            )
            (restored vm.frames.refcount c f can.frames.free),
    )
