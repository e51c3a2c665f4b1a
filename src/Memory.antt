-- ===== src/Memory.antt =====
-- kern/memory/sys_memory_management.c: the system calls `new_pages` and `remove_pages`.
pub mod Check
pub mod Remove
pub mod Grant
use p.Base.{
  ℕ, zero, suc, ◌+◌, ◌*◌, ◌/◌, ◌%◌, ◌^◌, Bool, true, false, not, ◌||◌, Option, none, some, List, [],
  ◌∷◌, ◌++◌, if◌then◌else◌, ◌==◌, ltb, leb,
}
use p.Frames.{page_size}
use p.Paging.{
  Vm, minus_one, deflag, pd_ind, pt_ind, is_user_addr, addr_has_mapping, allocate_pages, free_pages,
}

-- A `VA_INFO`. The process keeps its allocations in a linked list, here the sequence of its nodes.
pub record VaInfo : Type 0 where
  pub virtual_addr : ℕ
  pub len : ℕ

-- The part of the current process that the two calls use: its page directory and its allocations.
pub record Space : Type 0 where
  pub pd : ℕ
  pub va : List VaInfo
  pub vm : Vm

-- An `int` from 2 ^ 31 on is negative, and less than any that is not.
abbrev pub signed_lt : ℕ → ℕ → Bool
signed_lt a b =
    if leb (2 ^ 31) a
    then (if leb (2 ^ 31) b then ltb a b else true)
    else if leb (2 ^ 31) b
    then false
    else ltb a b

-- The page is in the address space already.
unfoldable pub is_taken : Space → ℕ → Bool
is_taken s cur_addr =
    let pt = deflag (s.vm.tables s.pd (pd_ind cur_addr)) in
    if pt == 0 then false else not (deflag (s.vm.tables pt (pt_ind cur_addr)) == 0)

-- The loop that looks for such a page: `n` rounds from round `i`.
unfoldable pub any_taken : Space → ℕ → ℕ → ℕ → Bool
any_taken s addr zero i = false
any_taken s addr (suc n) i =
    let rest = any_taken s addr n (i + 1) in
    if is_taken s ((addr + page_size * i) % 2 ^ 32) then true else rest

-- The tests of `sys_new_pages`, in their order.
unfoldable pub rejects_new : Space → ℕ → ℕ → Bool
rejects_new s addr len =
    if not (is_user_addr addr)
    then true
    else if not (addr % 2 ^ 12 == 0)
    then true
    else if leb (2 ^ 31) len || not (len % 2 ^ 12 == 0)
    then true
    else if signed_lt s.vm.frames.free_frame_num (len / 4096)
    then true
    else any_taken s addr (len / 4096) 0

-- `none` is a call that does not come back. The `malloc` of the node is taken to succeed.
unfoldable pub sys_new_pages : (ℕ → ℕ) → ℕ → ℕ → Space → Option (ℕ × Space)
sys_new_pages memalign addr len s =
    if rejects_new s addr len
    then some (minus_one, s)
    else elim (allocate_pages memalign s.pd addr len s.vm) [
      | none ↦ none
      | some (result, vm) ↦
          some
            (0, record s { va = s.va ++ (record { virtual_addr = addr; len = len } ∷ []); vm = vm })
    ]

-- The search of `sys_remove_pages` through the allocations, those before the current node first.
unfoldable pub remove_loop : ℕ → Space → List VaInfo → List VaInfo → ℕ × Space
remove_loop addr s before [] = (minus_one, s)
remove_loop addr s before (info ∷ rest) =
    let next = remove_loop addr s (before ++ (info ∷ [])) rest in
    if info.virtual_addr == addr
    then (0, record s { va = before ++ rest; vm = (free_pages s.pd addr info.len s.vm).1 })
    else next

unfoldable pub sys_remove_pages : ℕ → Space → ℕ × Space
sys_remove_pages addr s =
    if not (is_user_addr addr)
    then (minus_one, s)
    else if not (addr % 2 ^ 12 == 0)
    then (minus_one, s)
    else if not (addr_has_mapping addr s.pd s.vm)
    then (minus_one, s)
    else let pt = deflag (s.vm.tables s.pd (pd_ind addr)) in
      if not (s.vm.tables pt (pt_ind addr) % 8 == 7)
      then (minus_one, s)
      else remove_loop addr s [] s.va
