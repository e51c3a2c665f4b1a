-- ===== src/Paging.antt =====
-- The page tables of kern/memory/vm_routines.c.
pub mod View
pub mod Entry
pub mod Map
pub mod Unmap
pub mod Free
pub mod Ranges
pub mod Destroy
pub mod Pages
pub mod Range
pub mod Allocate
pub mod Protect
use p.Base.{
  ℕ, zero, suc, ◌+◌, ◌-◌, ◌*◌, ◌/◌, ◌%◌, ◌^◌, Bool, true, false, not, Option, none, some, List, ◌∷◌,
  if◌then◌else◌, ◌==◌, leb, ltb, update, ◌||◌,
}
use p.Frames.{Frames, Acquired, acquired, stuck, acquire_free_frame, release_free_frame, page_size}

-- The kernel's paging state. `tables t i` is word `i` of the page at address `t`, `zeroed` the
-- virtual pages that the kernel has cleared, the newest first, and `allocs` the number of pages
-- taken from `memalign` so far.
pub record Vm : Type 0 where
  pub frames : Frames
  pub tables : ℕ → ℕ → ℕ
  pub zeroed : List ℕ
  pub allocs : ℕ

-- PAGE_LEN, the entries of a table
abbrev pub page_len : ℕ
page_len = 1024

-- -1 as a 32-bit pattern
abbrev pub minus_one : ℕ
minus_one = 2 ^ 32 - 1

-- DEFLAG_ADDR: `x & 0xfffff000` of a 32-bit word.
abbrev pub deflag : ℕ → ℕ
deflag x = x / 2 ^ 12 * 2 ^ 12

-- `x | 0x7`
abbrev pub or7 : ℕ → ℕ
or7 x = x / 8 * 8 + 7

-- VA_PD_IND and VA_PT_IND of an address
abbrev pub pd_ind : ℕ → ℕ
pd_ind x = x / 2 ^ 22

abbrev pub pt_ind : ℕ → ℕ
pt_ind x = x / 2 ^ 12 % 2 ^ 10

abbrev pub set_entry : ℕ → ℕ → ℕ → Vm → Vm
set_entry t i v vm = record vm { tables = update vm.tables t (update (vm.tables t) i v) }

-- `memset((void *)(pd_index << 22 | pt_index << 12), 0, PAGE_SIZE)`, which goes through the page
-- directory that is loaded.
abbrev pub zero_page : ℕ → ℕ → Vm → Vm
zero_page i j vm = record vm {
  zeroed = ((i * 2 ^ 22) % 2 ^ 32 + (j * 2 ^ 12) % 2 ^ 22) ∷ vm.zeroed;
}

-- A result and the new state; `none` is a call of `acquire_free_frame` that does not come back.
abbrev pub Run : Type 0
Run = Option (ℕ × Vm)

infixl 5 ◌>>=◌
abbrev pub ◌>>=◌ : Run → (ℕ → Vm → Run) → Run
none >>= k = none
some (a, vm) >>= k = k a vm

unfoldable pub acquire : Vm → Run
acquire vm = elim (acquire_free_frame vm.frames) [
  | acquired a f ↦ some (a, record vm { frames = f })
  | stuck ↦ none
]

-- `memalign(PAGE_SIZE, PAGE_SIZE)` followed by `memset(…, 0, PAGE_SIZE)`. Call number `n` of
-- `memalign` returns `memalign n`.
abbrev pub new_table : (ℕ → ℕ) → Vm → ℕ × Vm
new_table memalign vm =
    let t = memalign vm.allocs in
    (t, record vm { tables = update vm.tables t (λ i. 0); allocs = vm.allocs + 1 })

-- The two ways in which `virtual_map_physical` enters frame `a`: in a table, and in a new one.
abbrev pub enter : ℕ → ℕ → ℕ → ℕ → Vm → Run
enter pt i j a vm =
    if a == 0 then some (minus_one, vm) else some (0, zero_page i j (set_entry pt j (or7 a) vm))

abbrev pub enter_new : (ℕ → ℕ) → ℕ → ℕ → ℕ → ℕ → Vm → Run
enter_new memalign pd i j a vm =
    if a == 0
    then some (minus_one, vm)
    else let (t, vm') = new_table memalign vm in
      some (0, zero_page i j (set_entry pd i (or7 t) (set_entry t j (or7 a) vm')))

unfoldable pub virtual_map_physical : (ℕ → ℕ) → ℕ → ℕ → ℕ → Vm → Run
virtual_map_physical memalign pd i j vm =
    let pde = vm.tables pd i in
    if not (pde == 0)
    then if vm.tables (deflag pde) j == 0
      then acquire vm >>= enter (deflag pde) i j
      else some (minus_one, vm)
    else acquire vm >>= enter_new memalign pd i j

unfoldable pub virtual_unmap_physical : ℕ → ℕ → ℕ → Vm → ℕ × Vm
virtual_unmap_physical pd i j vm =
    let pde = vm.tables pd i in
    if pde == 0
    then (minus_one, vm)
    else let pt = deflag pde in
      let pte = vm.tables pt j in
      if pte == 0
      then (minus_one, vm)
      else (0, set_entry pt j 0 (record vm { frames = release_free_frame (deflag pte) vm.frames }))

-- How many pages `allocate_pages`, `free_pages` and `map_readonly` go through.
abbrev pub times : ℕ → ℕ → ℕ
times virtual_addr size =
    let total_size = (virtual_addr % 2 ^ 12 + size) % 2 ^ 32 in
    if total_size % page_size == 0 then total_size / page_size else total_size / page_size + 1

-- The loop of `allocate_pages`: `n` rounds from round `i`. It does not look at what
-- `virtual_map_physical` returns.
unfoldable pub allocate_loop : (ℕ → ℕ) → ℕ → ℕ → ℕ → ℕ → ℕ → Vm → Run
allocate_loop memalign pd pd_index pt_index zero i vm = some (0, vm)
allocate_loop memalign pd pd_index pt_index (suc n) i vm =
    let offset = pt_index + i in
    virtual_map_physical memalign pd (pd_index + offset / page_len) (offset % page_len) vm
    >>= λ result. allocate_loop memalign pd pd_index pt_index n (i + 1)

unfoldable pub allocate_pages : (ℕ → ℕ) → ℕ → ℕ → ℕ → Vm → Run
allocate_pages memalign pd virtual_addr size vm =
    allocate_loop memalign pd (pd_ind virtual_addr) (pt_ind virtual_addr) (times virtual_addr size)
      0 vm

unfoldable pub free_loop : ℕ → ℕ → ℕ → ℕ → ℕ → Vm → Vm
free_loop pd pd_index pt_index zero i vm = vm
free_loop pd pd_index pt_index (suc n) i vm =
    let offset = pt_index + i in
    free_loop pd pd_index pt_index n (i + 1)
      (virtual_unmap_physical pd (pd_index + offset / page_len) (offset % page_len) vm).1

unfoldable pub free_pages : ℕ → ℕ → ℕ → Vm → ℕ × Vm
free_pages pd virtual_addr size vm =
    (0, free_loop pd (pd_ind virtual_addr) (pt_ind virtual_addr) (times virtual_addr size) 0 vm)

-- The loop of `destroy_page_table`: `n` rounds from entry `i`.
pub destroy_entries : ℕ → ℕ → ℕ → Vm → Vm
destroy_entries pt zero i vm = vm
destroy_entries pt (suc n) i vm =
    let pte = vm.tables pt i in
    destroy_entries pt n (i + 1) (
      if pte == 0
      then vm
      else set_entry pt i 0 (record vm { frames = release_free_frame (deflag pte) vm.frames }))

-- The call of `sfree` at the end gives the table's page back to the allocator.
unfoldable pub destroy_page_table : ℕ → Vm → Vm
destroy_page_table pt vm = destroy_entries pt page_len 0 vm

-- The loop of `destroy_page_directory`: `n` rounds from entry `i`.
pub destroy_tables : ℕ → ℕ → ℕ → Vm → Vm
destroy_tables pd zero i vm = vm
destroy_tables pd (suc n) i vm = destroy_tables pd n (i + 1) (
    if vm.tables pd i == 0
    then vm
    else set_entry pd i 0 (destroy_page_table (deflag (vm.tables pd i)) vm))

unfoldable pub destroy_page_directory : ℕ → Vm → Vm
destroy_page_directory pd vm = destroy_tables pd (page_len - 4) 4 vm

unfoldable pub is_user_addr : ℕ → Bool
is_user_addr addr = if addr == 0 then false else leb 0x01000000 addr

-- `pd` is the current process's page directory.
unfoldable pub addr_has_mapping : ℕ → ℕ → Vm → Bool
addr_has_mapping addr pd vm =
    if addr == 0
    then false
    else if pd == 0
    then false
    else let pt = deflag (vm.tables pd (pd_ind addr)) in
      if pt == 0 then false else not (deflag (vm.tables pt (pt_ind addr)) == 0)
