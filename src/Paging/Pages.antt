-- ===== src/Paging/Pages.antt =====
-- `allocate_pages` and `free_pages` report success whatever happens.
use p.Base.{ℕ, zero, suc, ◌+◌, ◌/◌, ◌%◌, ◌≡◌, refl, none, some}
use p.Paging.{
  Vm, Run, ◌>>=◌, page_len, virtual_map_physical, allocate_loop, allocate_pages, pd_ind, pt_ind,
  times,
}

-- The status of a run that comes back.
abbrev Succeeds : Run → Type 0
Succeeds none = Unit
Succeeds (some (status, vm)) = status ≡ 0

after : (r : Run) (k : ℕ → Vm → Run) → ((s : ℕ) (vm : Vm) → Succeeds (k s vm)) → Succeeds (r >>= k)
after none k all = tt
after (some (s, vm)) k all = all s vm

loop-Succeeds :
    (memalign : ℕ → ℕ) (pd pd_index pt_index n i : ℕ) (vm : Vm)
    → Succeeds (allocate_loop memalign pd pd_index pt_index n i vm)
unfolding allocate_loop
loop-Succeeds memalign pd pd_index pt_index zero i vm = refl
loop-Succeeds memalign pd pd_index pt_index (suc n) i vm =
    after
      (virtual_map_physical memalign pd (pd_index + (pt_index + i) / page_len)
        ((pt_index + i) % page_len) vm)
      (λ result. allocate_loop memalign pd pd_index pt_index n (i + 1))
      (λ s vm'. loop-Succeeds memalign pd pd_index pt_index n (i + 1) vm')

-- Whenever allocate_pages returns, it returns 0, whatever its calls of virtual_map_physical
-- have returned.
allocate_pages-zero :
    (memalign : ℕ → ℕ) (pd virtual_addr size status : ℕ) (vm vm' : Vm)
    → allocate_pages memalign pd virtual_addr size vm ≡ some (status, vm')
    → status ≡ 0
unfolding allocate_pages
allocate_pages-zero memalign pd virtual_addr size status vm vm' e = rw e at (
    loop-Succeeds memalign pd (pd_ind virtual_addr) (pt_ind virtual_addr) (times virtual_addr size)
      0 vm)
