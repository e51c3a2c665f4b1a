-- ===== src/Paging/Protect/ReadOnly.antt =====
-- The pages of a range have lost their write bit, and no other page has changed.
use p.Base.{ℕ, ◌%◌, ◌<◌, ◌≡◌, true, ◌&&◌, if◌then◌else◌, ◌==◌}
use p.Paging.{Vm, deflag, page_len}
use p.Paging.View.{IsDirectory, in_range}
use p.Paging.Protect.{no_write}

-- The entry of page `j` of region `i`.
abbrev pub entry : Vm → ℕ → ℕ → ℕ → ℕ
entry vm pd i j = vm.tables (deflag (vm.tables pd i)) j

-- One page: the directory keeps its tables, and one entry changes.
record Protected (vm vm' : Vm) (pd i j : ℕ) : Type 0 where
  directory : IsDirectory vm' pd
  same_tables : (a : ℕ) → deflag (vm'.tables pd a) ≡ deflag (vm.tables pd a)
  set : (a : ℕ) → vm.tables pd a % 2 ≡ 1 → vm'.tables pd a % 2 ≡ 1
  entries :
      (a b : ℕ)
      → vm.tables pd a % 2 ≡ 1
      → entry vm' pd a b
        ≡ (if (a == i) && (b == j) then no_write (entry vm pd a b) else entry vm pd a b)

-- The page table of each page of the range is there.
abbrev pub IsPresent : Vm → ℕ → ℕ → ℕ → Type 0
IsPresent vm pd start n =
    (a b : ℕ) → b < page_len → in_range start n a b ≡ true → vm.tables pd a % 2 ≡ 1
