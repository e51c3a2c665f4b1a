-- ===== src/Memory/Remove.antt =====
-- What `sys_remove_pages` removes.
use p.Base.{
  ℕ, ◌/◌, ◌%◌, ◌^◌, ◌≡◌, ◌&&◌, Bool, not, leb, Option, none, some, List, [], ◌∷◌, if◌then◌else◌,
  ◌==◌,
}
use p.Paging.{minus_one, deflag, times, free_pages}
use p.Paging.Free.{Frees}
use p.Memory.{Space, VaInfo}

-- The specification: the first allocation at the address, and the others.
abbrev pub find_first : ℕ → List VaInfo → Option VaInfo
find_first addr [] = none
find_first addr (info ∷ rest) =
    if info.virtual_addr == addr then some info else find_first addr rest

abbrev pub erase_first : ℕ → List VaInfo → List VaInfo
erase_first addr [] = []
erase_first addr (info ∷ rest) =
    if info.virtual_addr == addr then rest else info ∷ erase_first addr rest

-- What a search comes back with.
abbrev pub removed : ℕ → Space → Option VaInfo → List VaInfo → ℕ × Space
removed addr s none va = (minus_one, s)
removed addr s (some info) va =
    (0, record s { va = va; vm = (free_pages s.pd addr info.len s.vm).1 })

-- What the process may remove: an aligned address of its own, whose page is mapped and has the
-- present, the writable and the user bit.
abbrev pub removable : ℕ → Space → Bool
removable addr s =
    let pde = s.vm.tables s.pd (addr / 2 ^ 22) in
    let e = s.vm.tables (deflag pde) (addr / 2 ^ 12 % 2 ^ 10) in
    leb 0x01000000 addr
    && (addr % 2 ^ 12 == 0)
    && (not (s.pd == 0) && not (deflag pde == 0))
    && (not (deflag e == 0) && (e % 8 == 7))

-- The allocation `info` has been removed.
pub record IsRemoved (s s' : Space) (addr : ℕ) (info : VaInfo) : Type 0 where
  pub va : s'.va ≡ erase_first addr s.va
  pub pd : s'.pd ≡ s.pd
  pub freed : Frees s.vm s'.vm s.pd (addr / 2 ^ 12) (times addr info.len)

-- The call's result, by the allocation that it is to remove.
abbrev pub IsOutcome : ℕ → Space → Option VaInfo → ℕ × Space → Type 0
IsOutcome addr s none (status, s') = (status ≡ minus_one) × (s' ≡ s)
IsOutcome addr s (some info) (status, s') = (status ≡ 0) × IsRemoved s s' addr info
