-- ===== src/Paging/Map.antt =====
-- `virtual_map_physical` enters a free frame for one page, and leaves every other page as it is.
use p.Base.{
  ℕ, ◌+◌, ◌*◌, ◌<◌, ◌≡◌, refl, ◌≢◌, true, false, some, arith, ◌==◌, update, ne→==-false, Bool-cases,
  inl, inr,
}
use p.Frames.{Frames, acquired, acquire_free_frame, page_size, total_frames}
use p.Frames.Search.{FirstFree}
use p.Frames.Acquire.{At, acquire-Handed}
use p.Paging.{
  Vm, acquire, set_entry, zero_page, new_table, or7, deflag, minus_one, virtual_map_physical,
}
use p.Paging.View.{pte, IsDirectory, IsNew, SetsPage, Grows}
use p.Paging.Entry.{
  set_entry-pte, set_entry-IsDirectory, set_entry-tables, new_entry-tables, new_entry-pte,
  new_entry-IsDirectory,
}

-- Frame `c`, mapped for user mode: present, writable, user.
abbrev pub user_entry : ℕ → ℕ
user_entry c = c * page_size + 7

-- What has changed when page `(i, j)` has been mapped to frame `c`.
pub record Maps (vm vm' : Vm) (pd i j c : ℕ) : Type 0 where
  pub page : SetsPage (pte vm pd) (pte vm' pd) i j (user_entry c)
  pub directory : IsDirectory vm' pd
  pub counts : vm'.frames.refcount ≡ update vm.frames.refcount c 1

-- A directory that can take one more page: its tables are in order, the allocator's next page is
-- new to it, and frame `c` is free with another free frame `k` behind it.
pub record CanMap (memalign : ℕ → ℕ) (vm : Vm) (pd c k : ℕ) : Type 0 where
  pub directory : IsDirectory vm pd
  pub new : IsNew vm pd (memalign vm.allocs)
  pub frames : At vm.frames c
  pub not_first : 0 < c
  pub behind : c < k
  pub inside : k < total_frames
  pub free : vm.frames.refcount k ≡ 0

flagged : (c : ℕ) → or7 (c * page_size) ≡ user_entry c
flagged c = omega arith

acquire-ok :
    (vm : Vm) (a : ℕ) (g : Frames)
    → acquire_free_frame vm.frames ≡ acquired a g
    → acquire vm ≡ some (a, record vm { frames = g })
unfolding acquire
acquire-ok vm a g e = rw (e, acquire) refl

-- The state after a page has been mapped in a table that is there, and in a new one.
abbrev pub in_table : Vm → ℕ → ℕ → ℕ → ℕ → Vm
in_table vm pd i j a = zero_page i j (set_entry (deflag (vm.tables pd i)) j (or7 a) vm)

abbrev in_new_table : (ℕ → ℕ) → Vm → ℕ → ℕ → ℕ → ℕ → Vm
in_new_table memalign vm pd i j a = zero_page i j (
    set_entry pd i (or7 (memalign vm.allocs))
      (set_entry (memalign vm.allocs) j (or7 a) (new_table memalign vm).1))

module _ (memalign : ℕ → ℕ) (vm : Vm) (pd i j a : ℕ) (g : Frames) where
  abbrev pub vm1 : Vm
  vm1 = record vm { frames = g }

  module _ (e : acquire_free_frame vm.frames ≡ acquired a g) (real : (a == 0) ≡ false) where
    pub map-in_table :
        (vm.tables pd i == 0) ≡ false
        → vm.tables (deflag (vm.tables pd i)) j ≡ 0
        → virtual_map_physical memalign pd i j vm ≡ some (0, in_table vm1 pd i j a)
    unfolding virtual_map_physical
    map-in_table full vacant = rw (full, vacant, acquire-ok vm a g e, real) refl

    map-in_new_table :
        (vm.tables pd i == 0) ≡ true
        → virtual_map_physical memalign pd i j vm ≡ some (0, in_new_table memalign vm1 pd i j a)
    unfolding virtual_map_physical
    map-in_new_table empty = rw (empty, acquire-ok vm a g e, real) refl

-- The state behind a mapping, with what the next one needs.
pub record Stepped (memalign : ℕ → ℕ) (vm vm' : Vm) (pd i j c q : ℕ) : Type 0 where
  pub maps : Maps vm vm' pd i j c
  pub grows : Grows memalign vm vm' pd
  pub next : At vm'.frames q
  pub first : FirstFree (update vm.frames.refcount c 1) c q

pub map-Stepped :
    (memalign : ℕ → ℕ) (vm : Vm) (pd i j c k : ℕ)
    → CanMap memalign vm pd c k
    → pte vm pd i j ≡ 0
    → (vm' : Vm) × (q : ℕ) × (virtual_map_physical memalign pd i j vm ≡ some (0, vm'))
      × Stepped memalign vm vm' pd i j c q
map-Stepped memalign vm pd i j c k can vacant =
    let (g, q, e, h, at) = acquire-Handed vm.frames c k can.frames can.behind can.inside can.free in
    let vm1 : Vm = record vm { frames = g } in
    let t = memalign vm.allocs in
    let real : (c * page_size == 0) ≡ false = ground (arith, can.not_first) in
    let dir : IsDirectory vm1 pd = record {
      own = can.directory.own;
      distinct = can.directory.distinct;
    } in
    let new : IsNew vm1 pd t = record {
      aligned = can.new.aligned;
      not_directory = can.new.not_directory;
      unused = can.new.unused;
    } in
    let e1 = or7 (c * page_size) in
    elim (Bool-cases (vm.tables pd i == 0)) [
      | inl empty ↦
          let gone : vm.tables pd i ≡ 0 = ground arith in
          let dir' = new_entry-IsDirectory vm1 pd i j e1 t dir new gone in
          (
            in_new_table memalign vm1 pd i j (c * page_size),
            q,
            map-in_new_table memalign vm pd i j (c * page_size) g e real empty,
            record {
              maps = record {
                page = rw (← flagged c) (new_entry-pte vm1 pd i j e1 t dir new gone);
                directory = record { own = dir'.own; distinct = dir'.distinct };
                counts = h.counts;
              };
              grows = record {
                later = omega arith;
                tables = λ a on. elim (new_entry-tables vm1 pd i j e1 t dir new gone a on) [
                  | inl old ↦ inl old
                  | inr at_t ↦ inr (at_t, omega arith)
                ];
              };
              next = at;
              first = h.first;
            },
          )
      | inr full ↦
          let used : vm.tables pd i ≢ 0 = ground arith in
          let dir' = set_entry-IsDirectory vm1 pd i j e1 dir used in
          (
            in_table vm1 pd i j (c * page_size),
            q,
            map-in_table memalign vm pd i j (c * page_size) g e real full (rw full at vacant),
            record {
              maps = record {
                page = rw (← flagged c) (set_entry-pte vm1 pd i j e1 dir used);
                directory = record { own = dir'.own; distinct = dir'.distinct };
                counts = h.counts;
              };
              grows = record {
                later = omega arith;
                tables = λ a on.
                    let same = set_entry-tables vm1 pd i j e1 dir used a in
                    inl (rw same at on, rw same refl);
              };
              next = at;
              first = h.first;
            },
          )
    ]

-- For a page directory whose tables are distinct pages, with frame c > 0 next to be handed out,
-- another free frame behind it, and an allocator whose next page is aligned and new to the
-- directory: virtual_map_physical of a page that is not mapped returns 0, the page's entry is
-- c's address with the present, writable and user bits set, every other page's entry is as
-- before, the tables are again distinct pages, and the count of c is 1 with no other count
-- changed.
pub map-Maps :
    (memalign : ℕ → ℕ) (vm : Vm) (pd i j c k : ℕ)
    → CanMap memalign vm pd c k
    → pte vm pd i j ≡ 0
    → (vm' : Vm) × (virtual_map_physical memalign pd i j vm ≡ some (0, vm')) × Maps vm vm' pd i j c
map-Maps memalign vm pd i j c k can vacant =
    let (vm', q, e, s) = map-Stepped memalign vm pd i j c k can vacant in (vm', e, s.maps)

pub map_refuses :
    (memalign : ℕ → ℕ) (vm : Vm) (pd i j : ℕ)
    → pte vm pd i j ≢ 0
    → virtual_map_physical memalign pd i j vm ≡ some (minus_one, vm)
unfolding virtual_map_physical
map_refuses memalign vm pd i j mapped = elim (Bool-cases (vm.tables pd i == 0)) [
  | inl empty ↦ absurd (mapped (rw empty refl))
  | inr full ↦
      rw (full, ne→==-false (vm.tables (deflag (vm.tables pd i)) j) 0 (rw full at mapped)) refl
]
