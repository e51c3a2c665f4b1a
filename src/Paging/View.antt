-- ===== src/Paging/View.antt =====
-- What a page directory stands for: an entry for each virtual page.
use p.Base.{
  ℕ, ◌+◌, ◌*◌, ◌%◌, ◌^◌, ◌<◌, ◌≤◌, ◌≡◌, ◌≢◌, ◌⊎◌, inl, inr, Bool, if◌then◌else◌, ◌==◌, ◌&&◌, leb,
  ltb, arith,
}
use p.Paging.{Vm, deflag, page_len}

-- The page table entry of page `j` of region `i`; 0 where there is none.
abbrev pub pte : Vm → ℕ → ℕ → ℕ → ℕ
pte vm pd i j = if vm.tables pd i == 0 then 0 else vm.tables (deflag (vm.tables pd i)) j

-- The directory's tables are pages of their own.
pub record IsDirectory (vm : Vm) (pd : ℕ) : Type 0 where
  pub own : (i : ℕ) → vm.tables pd i ≢ 0 → deflag (vm.tables pd i) ≢ pd
  pub distinct :
      (i j : ℕ)
      → i ≢ j
      → vm.tables pd i ≢ 0
      → vm.tables pd j ≢ 0
      → deflag (vm.tables pd i) ≢ deflag (vm.tables pd j)

-- What is relied on of `memalign`: a page-aligned page that the directory does not use yet.
pub record IsNew (vm : Vm) (pd t : ℕ) : Type 0 where
  pub aligned : t % 2 ^ 12 ≡ 0
  pub not_directory : t ≢ pd
  pub unused : (i : ℕ) → vm.tables pd i ≢ 0 → deflag (vm.tables pd i) ≢ t

-- `view'` is `view` with the entry of one page changed.
abbrev pub SetsPage : (ℕ → ℕ → ℕ) → (ℕ → ℕ → ℕ) → ℕ → ℕ → ℕ → Type 0
SetsPage view view' i j e =
    (i' j' : ℕ) → view' i' j' ≡ (if (i' == i) && (j' == j) then e else view i' j')

-- Page `a`, `b` is one of `n` from page `start` on.
abbrev pub in_range : ℕ → ℕ → ℕ → ℕ → Bool
in_range start n a b = leb start (a * page_len + b) && ltb (a * page_len + b) (start + n)

-- A page by its region and its place in it, and by its number.
pub same_page :
    (s a b r c : ℕ)
    → r * page_len + c ≡ s
    → c < page_len
    → b < page_len
    → ((a == r) && (b == c)) ≡ (a * page_len + b == s)
same_page s a b r c e hc hb = ground arith

-- The allocator's calls from now on: page-aligned pages that differ from each other, and that the
-- directory does not use.
pub record Supplies (memalign : ℕ → ℕ) (vm : Vm) (pd : ℕ) : Type 0 where
  pub aligned : (n : ℕ) → vm.allocs ≤ n → memalign n % 2 ^ 12 ≡ 0
  pub not_directory : (n : ℕ) → vm.allocs ≤ n → memalign n ≢ pd
  pub unused : (n i : ℕ) → vm.allocs ≤ n → vm.tables pd i ≢ 0 → deflag (vm.tables pd i) ≢ memalign n
  pub distinct : (n m : ℕ) → vm.allocs ≤ n → n < m → memalign n ≢ memalign m

pub next-IsNew :
    (memalign : ℕ → ℕ) (vm : Vm) (pd : ℕ)
    → Supplies memalign vm pd
    → IsNew vm pd (memalign vm.allocs)
next-IsNew memalign vm pd s = record {
  aligned = s.aligned vm.allocs (omega arith);
  not_directory = s.not_directory vm.allocs (omega arith);
  unused = λ i. s.unused vm.allocs i (omega arith);
}

-- The tables of `vm'` are those of `vm`, and at most the allocator's next page.
pub record Grows (memalign : ℕ → ℕ) (vm vm' : Vm) (pd : ℕ) : Type 0 where
  pub later : vm.allocs ≤ vm'.allocs
  pub tables :
      (i : ℕ)
      → vm'.tables pd i ≢ 0
      → ((vm.tables pd i ≢ 0) × (deflag (vm'.tables pd i) ≡ deflag (vm.tables pd i)))
        ⊎ ((deflag (vm'.tables pd i) ≡ memalign vm.allocs) × (vm.allocs < vm'.allocs))

pub Grows-Supplies :
    (memalign : ℕ → ℕ) (vm vm' : Vm) (pd : ℕ)
    → Grows memalign vm vm' pd
    → Supplies memalign vm pd
    → Supplies memalign vm' pd
Grows-Supplies memalign vm vm' pd g s = record {
  aligned = λ n h. s.aligned n (omega (arith, g.later));
  not_directory = λ n h. s.not_directory n (omega (arith, g.later));
  unused = λ n i h used. elim (g.tables i used) [
    | inl (was, same) ↦ rw same (s.unused n i (omega (arith, g.later)) was)
    | inr (new, more) ↦ rw new (s.distinct vm.allocs n (omega arith) (omega (arith, more)))
  ];
  distinct = λ n m h lt. s.distinct n m (omega (arith, g.later)) lt;
}
