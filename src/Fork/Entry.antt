-- ===== src/Fork/Entry.antt =====
-- `find_free_entry` finds the first page that is not mapped in a table that is there.
use p.Base.{
  ℕ, zero, suc, ◌+◌, ◌-◌, ◌<◌, ◌≤◌, ◌≡◌, ◌≢◌, Option, some, none, arith, ◌==◌, Bool-cases,
  Option-cases, inl, inr,
}
use native.Mathlib.Decide.{dec_lt}
use p.Paging.{deflag, page_len}
use p.Fork.{Slot, find_in_table, find_from, find_free_entry}

-- `j` is the first entry from `start` on without an address.
pub record FirstIn (tables : ℕ → ℕ → ℕ) (pt start j : ℕ) : Type 0 where
  pub behind : start ≤ j
  pub vacant : deflag (tables pt j) ≡ 0
  pub others : (k : ℕ) → start ≤ k → k < j → deflag (tables pt k) ≢ 0

find_in_table-FirstIn :
    (tables : ℕ → ℕ → ℕ) (pt n j k : ℕ)
    → find_in_table tables pt n j ≡ some k
    → FirstIn tables pt j k × (k < j + n)
unfolding find_in_table
find_in_table-FirstIn tables pt zero j k e = cc
find_in_table-FirstIn tables pt (suc n) j k e = elim (Bool-cases (deflag (tables pt j) == 0)) [
  | inl h ↦
      let same : j ≡ k = ground (arith, h) in
      (
        record {
          behind = omega (arith, same);
          vacant = rw (← same) (ground (arith, h));
          others = λ l lo hi. absurd (omega (arith, same));
        },
        omega (arith, same),
      )
  | inr h ↦
      let (first, inside) = find_in_table-FirstIn tables pt n (j + 1) k (ground (arith, h)) in
      (
        record {
          behind = omega (arith, first.behind);
          vacant = first.vacant;
          others = λ l lo hi. elim (dec_lt j l) [
            | yes lt ↦ first.others l (omega (arith, lt)) hi
            | no ge ↦ let at : l ≡ j = omega (arith, ge) in rw at (ground (arith, h))
          ];
        },
        omega (arith, inside),
      )
]

find_in_table-none :
    (tables : ℕ → ℕ → ℕ) (pt n j k : ℕ)
    → find_in_table tables pt n j ≡ none
    → j ≤ k
    → k < j + n
    → deflag (tables pt k) ≢ 0
unfolding find_in_table
find_in_table-none tables pt zero j k e lo hi = absurd (omega arith)
find_in_table-none tables pt (suc n) j k e lo hi = elim (Bool-cases (deflag (tables pt j) == 0)) [
  | inl h ↦ cc (rw (find_in_table, h) at e)
  | inr h ↦ elim (dec_lt j k) [
    | yes lt ↦
        find_in_table-none tables pt n (j + 1) k (ground (arith, h)) (omega (arith, lt))
          (omega arith)
    | no ge ↦ let at : k ≡ j = omega (arith, ge) in rw at (ground (arith, h))
  ]
]

-- Every entry of every table of regions `lo` to `hi` has an address.
abbrev pub AllFull : (ℕ → ℕ → ℕ) → ℕ → ℕ → ℕ → Type 0
AllFull tables pd lo hi =
    (a b : ℕ)
    → lo ≤ a
    → a < hi
    → deflag (tables pd a) ≢ 0
    → b < page_len
    → deflag (tables (deflag (tables pd a)) b) ≢ 0

-- The slot is the first, by region and then by page, among those that are vacant.
pub record IsSlot (tables : ℕ → ℕ → ℕ) (pd start : ℕ) (e : Slot) : Type 0 where
  pub behind : start ≤ e.pd_index
  pub table : deflag (tables pd e.pd_index) ≢ 0
  pub inside : e.pt_index < page_len
  pub vacant : FirstIn tables (deflag (tables pd e.pd_index)) 0 e.pt_index
  pub others : AllFull tables pd start e.pd_index

-- What the search from region `i` over `n` regions has found.
abbrev pub Found : (ℕ → ℕ → ℕ) → ℕ → ℕ → ℕ → Option Slot → Type 0
Found tables pd i n none = AllFull tables pd i (i + n)
Found tables pd i n (some e) = IsSlot tables pd i e × (e.pd_index < i + n)

-- A region without a vacant entry is passed over.
module _ (tables : ℕ → ℕ → ℕ) (pd i n : ℕ)
    (full : deflag (tables pd i) ≢ 0
      → (b : ℕ) → b < page_len
      → deflag (tables (deflag (tables pd i)) b) ≢ 0) where
  AllFull-widen : (hi : ℕ) → AllFull tables pd (i + 1) hi → AllFull tables pd i hi
  AllFull-widen hi all a b lo lt there small = elim (dec_lt i a) [
    | yes h ↦ all a b (omega (arith, h)) lt there small
    | no h ↦ let at : a ≡ i = omega (arith, h) in rw at (full (rw at at there) b small)
  ]

  Found-widen : (o : Option Slot) → Found tables pd (i + 1) n o → Found tables pd i (suc n) o
  Found-widen none all =
      let e : i + suc n ≡ i + 1 + n = omega arith in rw e (AllFull-widen (i + 1 + n) all)
  Found-widen (some e) (slot, inside) = (
    record {
      behind = omega (arith, slot.behind);
      table = slot.table;
      inside = slot.inside;
      vacant = slot.vacant;
      others = AllFull-widen e.pd_index slot.others;
    },
    omega (arith, inside),
  )

find_from-Found : (tables : ℕ → ℕ → ℕ) (pd n i : ℕ) → Found tables pd i n (find_from tables pd n i)
unfolding find_from
find_from-Found tables pd zero i = λ a b lo hi. absurd (omega arith)
find_from-Found tables pd (suc n) i =
    let pt = deflag (tables pd i) in
    elim (Bool-cases (pt == 0)) [
      | inl h ↦
          rw (find_from, h)
            (Found-widen tables pd i n (λ used. absurd (used (ground (arith, h)))) _
              (find_from-Found tables pd n (i + 1)))
      | inr h ↦ elim (Option-cases (find_in_table tables pt page_len 0)) [
        | inl absent ↦
            rw (find_from, h, absent)
              (Found-widen tables pd i n
                (λ used b small.
                  find_in_table-none tables pt page_len 0 b absent (omega arith) (omega arith))
                _ (find_from-Found tables pd n (i + 1)))
        | inr (j, there) ↦
            let (first, small) = find_in_table-FirstIn tables pt page_len 0 j there in
            rw (find_from, h, there)
              (
                record {
                  behind = omega arith;
                  table = ground (arith, h);
                  inside = omega (arith, small);
                  vacant = first;
                  others = λ a b lo hi. absurd (omega arith);
                },
                omega arith,
              )
      ]
    ]

-- find_free_entry finds the first page, by region and then by place, behind the kernel's four
-- regions that has a page table and no address in it; when it finds nothing, every such table
-- is full.
pub find_free_entry-Found :
    (tables : ℕ → ℕ → ℕ) (pd : ℕ) → Found tables pd 4 (page_len - 4) (find_free_entry tables pd)
unfolding find_free_entry
find_free_entry-Found tables pd = find_from-Found tables pd (page_len - 4) 4
