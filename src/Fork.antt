-- ===== src/Fork.antt =====
-- kern/process/sys_fork.c: how `sys_fork` copies the pages of a process. Its control blocks, and
-- the trap frame from which the child's registers come, are not modelled.
pub mod Entry
pub mod Translate
pub mod Copy
pub mod Table
use p.Base.{
  ℕ, zero, suc, ◌+◌, ◌-◌, ◌*◌, ◌%◌, ◌^◌, update, Option, none, some, List, [], ◌∷◌, if◌then◌else◌,
  ◌==◌,
}
use p.Paging.{Vm, page_len, minus_one, deflag, pd_ind, pt_ind, set_entry, virtual_map_physical}

-- GET_FLAG
abbrev pub get_flag : ℕ → ℕ
get_flag x = x % 2 ^ 12

-- An `entry_struct`; its free_virtual_addr is the address of the page at the two indices.
pub record Slot : Type 0 where
  pub pd_index : ℕ
  pub pt_index : ℕ

-- The inner loop of `find_free_entry`: `n` rounds from entry `j` of the table at `pt`.
unfoldable pub find_in_table : (ℕ → ℕ → ℕ) → ℕ → ℕ → ℕ → Option ℕ
find_in_table tables pt zero j = none
find_in_table tables pt (suc n) j =
    let rest = find_in_table tables pt n (j + 1) in
    if deflag (tables pt j) == 0 then some j else rest

-- The outer loop: `n` rounds from entry `i` of the directory.
unfoldable pub find_from : (ℕ → ℕ → ℕ) → ℕ → ℕ → ℕ → Option Slot
find_from tables pd zero i = none
find_from tables pd (suc n) i =
    let rest = find_from tables pd n (i + 1) in
    let pt = deflag (tables pd i) in
    if pt == 0 then rest else elim (find_in_table tables pt page_len 0) [
      | none ↦ rest
      | some j ↦ some (record { pd_index = i; pt_index = j })
    ]

unfoldable pub find_free_entry : (ℕ → ℕ → ℕ) → ℕ → Option Slot
find_free_entry tables pd = find_from tables pd (page_len - 4) 4

-- `(i << 22) | (j << 12)`, the address of a page.
abbrev pub page_addr : ℕ → ℕ → ℕ
page_addr i j = (i * 2 ^ 22) % 2 ^ 32 + (j * 2 ^ 12) % 2 ^ 22

-- The paging state; the pages that `memcpy` has copied so far, the newest first, by the physical
-- addresses to which the processor has translated its two arguments, destination and source; and
-- the translations of pages that the processor keeps. The loaded page directory is the parent's.
pub record Forked : Type 0 where
  pub vm : Vm
  pub copies : List (ℕ × ℕ)
  pub tlb : ℕ → Option ℕ

-- What the page directory at `pd` says of a page, what the processor takes for it, and the state
-- behind an access.
abbrev pub walk_tables : ℕ → ℕ → Vm → ℕ
walk_tables pd v vm = deflag (vm.tables (deflag (vm.tables pd (pd_ind v))) (pt_ind v))

abbrev pub translate : ℕ → ℕ → Forked → ℕ
translate pd v f = elim (f.tlb v) [ none ↦ walk_tables pd v f.vm | some a ↦ a ]

abbrev pub touch : ℕ → ℕ → Forked → Forked
touch pd v f = record f { tlb = update f.tlb v (some (translate pd v f)) }

-- `memcpy` of the page at `src` to the page at `dest`.
abbrev pub memcpy_page : ℕ → ℕ → ℕ → Forked → Forked
memcpy_page pd dest src f =
    let f' = touch pd dest (touch pd src f) in
    record f' { copies = (translate pd dest (touch pd src f), translate pd src f) ∷ f.copies }

-- A load of the directory makes the processor forget its translations.
abbrev pub set_cr3 : Forked → Forked
set_cr3 f = record f { tlb = λ v. none }

-- A status and the new state; `none` is a call that does not come back. A status of -1 is returned.
infixl 5 ◌>>=◌
abbrev pub ◌>>=◌ : Option (ℕ × Forked) → (Forked → Option (ℕ × Forked)) → Option (ℕ × Forked)
none >>= k = none
some (status, f) >>= k = if status == minus_one then some (minus_one, f) else k f

-- The copy of page `j` of region `i`, which is in the parent's address space at the slot for a
-- while. `virtual_map_physical` has cleared it there, which is an access.
unfoldable pub copy_page : (ℕ → ℕ) → ℕ → Slot → ℕ → ℕ → ℕ → ℕ → Forked → Option (ℕ × Forked)
copy_page memalign pd e child_de i pt_addr j f =
    let raw = f.vm.tables pt_addr j in
    if deflag raw == 0
    then some (0, f)
    else elim (virtual_map_physical memalign pd e.pd_index e.pt_index f.vm) [
      | none ↦ none
      | some (result, vm) ↦
          let free_virtual_addr = page_addr e.pd_index e.pt_index in
          if result == minus_one
          then some (minus_one, record f { vm = vm })
          else let found_table = deflag (vm.tables pd e.pd_index) in
            let new = deflag (vm.tables found_table e.pt_index) in
            let f' =
              memcpy_page pd free_virtual_addr (page_addr i j)
                (touch pd free_virtual_addr (record f { vm = vm })) in
            some (
              0,
              set_cr3 (record f' {
                vm =
                    set_entry found_table e.pt_index 0
                      (set_entry child_de j (new + get_flag raw) vm);
              }),
            )
    ]

-- The loop over one page table: `n` rounds from entry `j`.
unfoldable pub copy_table : (ℕ → ℕ) → ℕ → Slot → ℕ → ℕ → ℕ → ℕ → ℕ → Forked → Option (ℕ × Forked)
copy_table memalign pd e child_de i pt_addr zero j f = some (0, f)
copy_table memalign pd e child_de i pt_addr (suc n) j f =
    copy_page memalign pd e child_de i pt_addr j f
    >>= copy_table memalign pd e child_de i pt_addr n (j + 1)

-- One round of the loop over the directory. What the page from `memalign` holds is not known.
unfoldable pub copy_region : (ℕ → ℕ) → ℕ → ℕ → Slot → ℕ → Forked → Option (ℕ × Forked)
copy_region memalign pd child_pd e i f =
    let raw = f.vm.tables pd i in
    if deflag raw == 0
    then some (0, f)
    else let child_de = memalign f.vm.allocs in
      let vm = record f.vm { allocs = f.vm.allocs + 1 } in
      if child_de == 0
      then some (minus_one, record f { vm = vm })
      else copy_table memalign pd e child_de i (deflag raw) page_len 0
          (record f { vm = set_entry child_pd i (child_de + get_flag raw) vm })

unfoldable pub copy_regions : (ℕ → ℕ) → ℕ → ℕ → Slot → ℕ → ℕ → Forked → Option (ℕ × Forked)
copy_regions memalign pd child_pd e zero i f = some (0, f)
copy_regions memalign pd child_pd e (suc n) i f =
    copy_region memalign pd child_pd e i f >>= copy_regions memalign pd child_pd e n (i + 1)

-- The kernel's regions share their tables.
unfoldable pub copy_kernel : ℕ → ℕ → ℕ → ℕ → Vm → Vm
copy_kernel pd child_pd zero i vm = vm
copy_kernel pd child_pd (suc n) i vm =
    copy_kernel pd child_pd n (i + 1) (set_entry child_pd i (vm.tables pd i) vm)

-- What `sys_fork` does to the paging state: a slot, a directory, and the copies.
unfoldable pub fork_pages : (ℕ → ℕ) → ℕ → (ℕ → Option ℕ) → Vm → Option (ℕ × Forked)
fork_pages memalign pd tlb vm = elim (find_free_entry vm.tables pd) [
  | none ↦ some (minus_one, record { vm = vm; copies = []; tlb = tlb })
  | some e ↦
      let child_pd = memalign vm.allocs in
      let vm' = record vm { allocs = vm.allocs + 1 } in
      if child_pd == 0
      then some (minus_one, record { vm = vm'; copies = []; tlb = tlb })
      else copy_regions memalign pd child_pd e (page_len - 4) 4
          (record { vm = copy_kernel pd child_pd 4 0 vm'; copies = []; tlb = tlb })
]
