-- ===== src/Memory/Grant.antt =====
-- A request that `sys_new_pages` grants: what the process's pages are behind it.
use p.Base.{
  ℕ, ◌+◌, ◌-◌, ◌*◌, ◌/◌, ◌%◌, ◌^◌, ◌<◌, ◌≤◌, ◌≡◌, refl, false, some, List, [], ◌∷◌, ◌++◌, arith,
  length,
}
use p.Frames.{page_size}
use p.Paging.{Vm, deflag, page_len, pd_ind, pt_ind, is_user_addr, times}
use p.Paging.View.{pte}
use p.Paging.Range.{CanMapAll, MapsAll, IsVacant}
use p.Paging.Allocate.{allocate_pages-MapsAll}
use p.Memory.{Space, is_taken, rejects_new, sys_new_pages}
use p.Memory.Check.{Passes, rejects_new-Passes, any_taken-none}

-- Behind the kernel's four regions no word of the directory or of a table has flags and no address.
pub record IsClean (vm : Vm) (pd : ℕ) : Type 0 where
  pub directory : (i : ℕ) → 4 ≤ i → deflag (vm.tables pd i) ≡ 0 → vm.tables pd i ≡ 0
  pub pages : (i j : ℕ) → 4 ≤ i → deflag (pte vm pd i j) ≡ 0 → pte vm pd i j ≡ 0

not_taken :
    (s : Space) (a b : ℕ)
    → IsClean s.vm s.pd
    → 4 ≤ a
    → b < page_len
    → is_taken s ((a * page_len + b) * 4096) ≡ false
    → pte s.vm s.pd a b ≡ 0
unfolding is_taken
not_taken s a b clean user hb free =
    let row : pd_ind ((a * page_len + b) * 4096) ≡ a = omega arith in
    let column : pt_ind ((a * page_len + b) * 4096) ≡ b = omega arith in
    clean.pages a b user
      (ground (arith, rw (row, column) at free, clean.directory a user, clean.pages a b user))

passed-IsVacant :
    (s : Space) (addr len : ℕ)
    → Passes s addr len
    → addr + len ≤ 2 ^ 32
    → IsClean s.vm s.pd
    → IsVacant s.vm s.pd (addr / 2 ^ 12) (len / 4096)
unfolding is_user_addr
passed-IsVacant s addr len pass fits clean a b hb inside =
    let user : 0x01000000 ≤ addr = ground (arith, pass.user) in
    let lo : addr / 2 ^ 12 ≤ a * page_len + b = ground (arith, inside) in
    let hi : a * page_len + b < addr / 2 ^ 12 + len / 4096 = ground (arith, inside) in
    let k = a * page_len + b - addr / 2 ^ 12 in
    let at : (addr + page_size * (0 + k)) % 2 ^ 32 ≡ (a * page_len + b) * 4096 =
      omega (arith, pass.aligned) in
    not_taken s a b clean (omega arith) hb
      (rw at at (any_taken-none s addr (len / 4096) 0 k pass.none_taken (omega arith)))

pages_asked :
    (addr len : ℕ)
    → addr % 2 ^ 12 ≡ 0
    → len < 2 ^ 31
    → len % 2 ^ 12 ≡ 0
    → times addr len ≡ len / 4096
pages_asked addr len aligned positive whole = ground arith

-- When the tests of sys_new_pages pass and the range ends by 2 ^ 32, frame c is next to be
-- handed out with at least as many further free frames behind it as pages are asked for, the
-- allocator's pages are new, and the user part of the page tables is clean: the call returns 0,
-- and then each page of the range has a writable user mapping to a frame of its own that was
-- free and now has one user, every other page is mapped as before, no frame in use has lost or
-- gained a user, and the allocation is recorded behind the others.
pub new_pages-MapsAll :
    (memalign : ℕ → ℕ) (addr len : ℕ) (s : Space) (c : ℕ) (ks : List ℕ)
    → rejects_new s addr len ≡ false
    → addr + len ≤ 2 ^ 32
    → CanMapAll memalign s.vm s.pd c ks
    → len / 4096 ≤ length ks
    → IsClean s.vm s.pd
    → (s' : Space) × (sys_new_pages memalign addr len s ≡ some (0, s'))
      × MapsAll s.vm s'.vm s.pd (addr / 2 ^ 12) (len / 4096)
      × (s'.va ≡ s.va ++ (record { virtual_addr = addr; len = len } ∷ []))
unfolding sys_new_pages
new_pages-MapsAll memalign addr len s c ks good fits can enough clean =
    let pass = rejects_new-Passes s addr len good in
    let n : times addr len ≡ len / 4096 =
      pages_asked addr len pass.aligned pass.positive pass.pages in
    let (vm', e, maps) =
      allocate_pages-MapsAll memalign s.pd addr len s.vm c ks can (omega (arith, n))
        (rw n (passed-IsVacant s addr len pass fits clean)) in
    (
      record s { va = s.va ++ (record { virtual_addr = addr; len = len } ∷ []); vm = vm' },
      rw (good, e) refl,
      rw n at maps,
      refl,
    )
