-- ===== src/Paging/Protect.antt =====
-- kern/memory/vm_routines.c: `map_readonly`, and the directory that `init_pd` makes.
pub mod ReadOnly
use p.Base.{ℕ, zero, suc, ◌+◌, ◌/◌, ◌*◌, ◌%◌, ◌^◌, ltb, if◌then◌else◌, update}
use p.Paging.{Vm, deflag, pd_ind, pt_ind, page_len, times, set_entry}

-- `x & 0xfffffffd` of a 32-bit word.
abbrev pub no_write : ℕ → ℕ
no_write x = x / 4 * 4 + x % 2

unfoldable pub map_readonly_pages : ℕ → ℕ → ℕ → Vm → Vm
map_readonly_pages pd i j vm =
    let pt = deflag (vm.tables pd i) in
    let vm' = set_entry pt j (no_write (vm.tables pt j)) vm in
    set_entry pd i (no_write (vm'.tables pd i)) vm'

-- The loop of `map_readonly`: `n` rounds from round `i`.
unfoldable pub readonly_loop : ℕ → ℕ → ℕ → ℕ → ℕ → Vm → Vm
readonly_loop pd pd_index pt_index zero i vm = vm
readonly_loop pd pd_index pt_index (suc n) i vm =
    let offset = pt_index + i in
    readonly_loop pd pd_index pt_index n (i + 1)
      (map_readonly_pages pd (pd_index + offset / page_len) (offset % page_len) vm)

unfoldable pub map_readonly : ℕ → ℕ → ℕ → Vm → Vm
map_readonly pd virtual_addr size vm =
    readonly_loop pd (pd_ind virtual_addr) (pt_ind virtual_addr) (times virtual_addr size) 0 vm
