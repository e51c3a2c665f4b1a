-- ===== src/Memory/Check.antt =====
-- When `sys_new_pages` accepts a request, and what it leaves behind when it does not.
use p.Base.{
  ℕ, zero, suc, ◌+◌, ◌*◌, ◌/◌, ◌%◌, ◌^◌, ◌<◌, ◌≡◌, ◌≢◌, true, false, some, [], ◌∷◌, ◌++◌, arith,
  Bool-cases, inl, inr,
}
use p.Frames.{page_size}
use p.Paging.{minus_one, is_user_addr}
use p.Memory.{Space, is_taken, any_taken, rejects_new, sys_new_pages, signed_lt}

pub any_taken-none :
    (s : Space) (addr n i k : ℕ)
    → any_taken s addr n i ≡ false
    → k < n
    → is_taken s ((addr + page_size * (i + k)) % 2 ^ 32) ≡ false
unfolding any_taken
any_taken-none s addr zero i k e h = elim h [ ]
any_taken-none s addr (suc n) i zero e h =
    let at : i + 0 ≡ i = omega arith in
    rw at (elim (Bool-cases (is_taken s ((addr + page_size * i) % 2 ^ 32))) [
      | inl t ↦ cc (rw (t, any_taken) at e)
      | inr f ↦ f
    ])
any_taken-none s addr (suc n) i (suc k) e h =
    let at : i + suc k ≡ i + 1 + k = omega arith in
    rw at (any_taken-none s addr n (i + 1) k (ground (arith, e)) (omega arith))

-- What the tests of `sys_new_pages` have established when it goes on.
pub record Passes (s : Space) (addr len : ℕ) : Type 0 where
  pub user : is_user_addr addr ≡ true
  pub aligned : addr % 2 ^ 12 ≡ 0
  pub positive : len < 2 ^ 31
  pub pages : len % 2 ^ 12 ≡ 0
  pub resources : signed_lt s.vm.frames.free_frame_num (len / 4096) ≡ false
  pub none_taken : any_taken s addr (len / 4096) 0 ≡ false

pub rejects_new-Passes :
    (s : Space) (addr len : ℕ) → rejects_new s addr len ≡ false → Passes s addr len
unfolding rejects_new
rejects_new-Passes s addr len e = record {
  user = ground arith;
  aligned = ground arith;
  positive = ground arith;
  pages = ground arith;
  resources = ground arith;
  none_taken = ground arith;
}

-- When sys_new_pages returns 0, the base was a page-aligned user address, the length a non-
-- negative multiple of the page size, the count of free frames was no less than the pages asked
-- for as signed integers, no page was taken, and the allocation has been recorded behind the
-- older ones.
new_pages-accepts :
    (memalign : ℕ → ℕ) (addr len : ℕ) (s s' : Space)
    → sys_new_pages memalign addr len s ≡ some (0, s')
    → Passes s addr len × (s'.va ≡ s.va ++ (record { virtual_addr = addr; len = len } ∷ []))
unfolding sys_new_pages
new_pages-accepts memalign addr len s s' e = elim (Bool-cases (rejects_new s addr len)) [
  | inl bad ↦ absurd (ground arith)
  | inr good ↦ (rejects_new-Passes s addr len good, ground arith)
]

-- When sys_new_pages returns 0, no page of the range that it was asked for was in the address
-- space before the call.
new_pages-fresh :
    (memalign : ℕ → ℕ) (addr len k : ℕ) (s s' : Space)
    → sys_new_pages memalign addr len s ≡ some (0, s')
    → k < len / 4096
    → is_taken s ((addr + page_size * k) % 2 ^ 32) ≡ false
new_pages-fresh memalign addr len k s s' e h =
    let (pass, grown) = new_pages-accepts memalign addr len s s' e in
    let at : 0 + k ≡ k = omega arith in
    rw at at (any_taken-none s addr (len / 4096) 0 k pass.none_taken h)

-- When sys_new_pages returns anything but 0, it returns -1, one of its tests has failed, and
-- nothing has changed.
new_pages-refuses :
    (memalign : ℕ → ℕ) (addr len status : ℕ) (s s' : Space)
    → sys_new_pages memalign addr len s ≡ some (status, s')
    → status ≢ 0
    → (status ≡ minus_one) × (s' ≡ s) × (rejects_new s addr len ≡ true)
unfolding sys_new_pages
new_pages-refuses memalign addr len status s s' e bad = ground arith
