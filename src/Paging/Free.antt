-- ===== src/Paging/Free.antt =====
-- `free_pages` of kern/memory/vm_routines.c takes a range of pages away.
use p.Base.{
  ℕ, zero, suc, ◌+◌, ◌-◌, ◌*◌, ◌/◌, ◌%◌, ◌^◌, ◌<◌, ◌≤◌, ◌≡◌, refl, ◌∙◌, ◌≢◌, true, ◌&&◌, not, arith,
  if◌then◌else◌, ◌==◌, Bool-cases, inl, inr, ne→==-false, ==_refl, update,
}
use mathlib.Core.Path.{ap₂}
use p.Frames.{page_size}
use p.Frames.Release.{release-counts}
use p.Paging.{Vm, page_len, pd_ind, pt_ind, times, virtual_unmap_physical, free_loop, free_pages}
use p.Paging.View.{pte, IsDirectory, in_range, same_page}
use p.Paging.Unmap.{unmap-Unmaps, unmap_refuses}

-- Whether the page with number `s` is mapped to frame `f`, and how many of `n` pages from it on are.
abbrev pub page : Vm → ℕ → ℕ → ℕ
page vm pd s = pte vm pd (s / page_len) (s % page_len)

abbrev pub holds : ℕ → ℕ → ℕ
holds e f = if not (e == 0) && (e / page_size == f) then 1 else 0

unfoldable pub held : Vm → ℕ → ℕ → ℕ → ℕ → ℕ
held vm pd s zero f = 0
held vm pd s (suc n) f = holds (page vm pd s) f + held vm pd (s + 1) n f

-- Each frame's count covers the pages of the range that are mapped to it, and is a 32-bit one.
abbrev pub IsCovered : Vm → ℕ → ℕ → ℕ → Type 0
IsCovered vm pd s n =
    (f : ℕ) → (held vm pd s n f ≤ vm.frames.refcount f) × (vm.frames.refcount f < 2 ^ 32)

-- The `n` pages from page `s` on are gone, and each frame has lost one reference for each of them
-- that was mapped to it.
pub record Frees (vm vm' : Vm) (pd s n : ℕ) : Type 0 where
  pub directory : IsDirectory vm' pd
  pub pages :
      (a b : ℕ) → b < page_len → pte vm' pd a b ≡ (if in_range s n a b then 0 else pte vm pd a b)
  pub counts : (f : ℕ) → vm'.frames.refcount f + held vm pd s n f ≡ vm.frames.refcount f

-- One round.
pub record FreesOne (vm vm' : Vm) (pd s : ℕ) : Type 0 where
  pub directory : IsDirectory vm' pd
  pub pages :
      (a b : ℕ)
      → b < page_len
      → pte vm' pd a b ≡ (if a * page_len + b == s then 0 else pte vm pd a b)
  pub counts : (f : ℕ) → vm'.frames.refcount f + holds (page vm pd s) f ≡ vm.frames.refcount f

not_mapped : (x s e : ℕ) → (x == s ≡ true → e ≡ 0) → e ≡ (if x == s then 0 else e)
not_mapped x s e h = elim (Bool-cases (x == s)) [ inl at ↦ rw at (h at) | inr off ↦ rw off refl ]

same : (x y : ℕ) → (x == y) ≡ true → x ≡ y
same x y h = ground (arith, h)

holds_own : (e : ℕ) → e ≢ 0 → holds e (e / page_size) ≡ 1
holds_own e ne = rw (ne→==-false e 0 ne, ==_refl (e / page_size)) refl

counted :
    (r : ℕ → ℕ) (e f : ℕ)
    → e ≢ 0
    → 0 < r (e / page_size)
    → update r (e / page_size) (r (e / page_size) - 1) f + holds e f ≡ r f
counted r e f ne pos = elim (Bool-cases (e / page_size == f)) [
  | inl h ↦ ground (arith, ne, pos, h)
  | inr h ↦ ground (arith, ne, pos, h)
]

pub unmap-FreesOne :
    (vm : Vm) (pd r c s : ℕ)
    → IsDirectory vm pd
    → r * page_len + c ≡ s
    → c < page_len
    → ((f : ℕ) → (holds (page vm pd s) f ≤ vm.frames.refcount f) × (vm.frames.refcount f < 2 ^ 32))
    → FreesOne vm (virtual_unmap_physical pd r c vm).1 pd s
unmap-FreesOne vm pd r c s is at inside covered =
    let here : page vm pd s ≡ pte vm pd r c =
      ap₂ (pte vm pd) (omega (arith, at, inside)) (omega (arith, at, inside)) in
    elim (Bool-cases (pte vm pd r c == 0)) [
      | inl h ↦
          let gone : pte vm pd r c ≡ 0 = ground (arith, h) in
          rw (unmap_refuses vm pd r c gone) (record {
            directory = is;
            pages = λ a b hb. not_mapped (a * page_len + b) s (pte vm pd a b) (λ h.
                ap₂ (pte vm pd) (omega (arith, at, inside, hb, same (a * page_len + b) s h))
                  (omega (arith, at, inside, hb, same (a * page_len + b) s h))
                ∙ gone);
            counts = λ f. rw (here, gone) (omega arith);
          })
      | inr h ↦
          let mapped : pte vm pd r c ≢ 0 = ground (arith, h) in
          let (status, u) = unmap-Unmaps vm pd r c is mapped in
          record {
            directory = u.directory;
            pages = λ a b hb. u.page a b ∙ rw (same_page s a b r c at inside hb) refl;
            counts = λ f.
                let e = pte vm pd r c in
                let (most, small) = covered (e / page_size) in
                let pos : 0 < vm.frames.refcount (e / page_size) =
                  omega (arith, rw (here, holds_own e mapped) at most) in
                rw (u.frames, here, release-counts vm.frames (e / page_size) pos small)
                  (counted vm.frames.refcount e f mapped pos);
          }
    ]

pub held-same :
    (vm vm' : Vm) (pd s n f : ℕ)
    → ((p : ℕ) → s ≤ p → page vm' pd p ≡ page vm pd p)
    → held vm' pd s n f ≡ held vm pd s n f
unfolding held
held-same vm vm' pd s zero f h = refl
held-same vm vm' pd s (suc n) f h =
    rw (h s (omega arith), held-same vm vm' pd (s + 1) n f (λ p le. h p (omega (arith, le)))) refl

-- The pages behind the first are as they were.
FreesOne-page :
    (vm vm' : Vm) (pd s : ℕ)
    → FreesOne vm vm' pd s
    → (p : ℕ) → s + 1 ≤ p
    → page vm' pd p ≡ page vm pd p
FreesOne-page vm vm' pd s o p le =
    o.pages (p / page_len) (p % page_len) (omega arith)
    ∙ rw (ne→==-false (p / page_len * page_len + p % page_len) s (λ e. omega (arith, le, e))) refl

range_step :
    (s n a b x : ℕ)
    → (if in_range (s + 1) n a b then 0 else (if a * page_len + b == s then 0 else x))
      ≡ (if in_range s (suc n) a b then 0 else x)
range_step s n a b x = ground arith

pub none-Frees : (vm : Vm) (pd s : ℕ) → IsDirectory vm pd → Frees vm vm pd s 0
unfolding held
none-Frees vm pd s is = record {
  directory = is;
  pages = λ a b hb. ground arith;
  counts = λ f. omega arith;
}

-- A round, and then the others.
module _ (vm vm1 : Vm) (pd s n : ℕ) (o : FreesOne vm vm1 pd s) where
  kept : (f : ℕ) → held vm1 pd (s + 1) n f ≡ held vm pd (s + 1) n f
  kept f = held-same vm vm1 pd (s + 1) n f (FreesOne-page vm vm1 pd s o)

  pub FreesOne-IsCovered : IsCovered vm pd s (suc n) → IsCovered vm1 pd (s + 1) n
  unfolding held
  FreesOne-IsCovered covered f =
      (omega (arith, (covered f).0, o.counts f, kept f), omega (arith, (covered f).1, o.counts f))

  pub first-Frees : (vm' : Vm) → Frees vm1 vm' pd (s + 1) n → Frees vm vm' pd s (suc n)
  unfolding held
  first-Frees vm' rest = record {
    directory = rest.directory;
    pages =
        λ a b hb. rest.pages a b hb ∙ (rw (o.pages a b hb) (range_step s n a b (pte vm pd a b)));
    counts = λ f. omega (arith, rest.counts f, o.counts f, kept f);
  }

pub covered_first :
    (vm : Vm) (pd s n : ℕ)
    → IsCovered vm pd s (suc n)
    → (f : ℕ) → (holds (page vm pd s) f ≤ vm.frames.refcount f) × (vm.frames.refcount f < 2 ^ 32)
unfolding held
covered_first vm pd s n covered f = (omega (arith, (covered f).0), (covered f).1)

free_loop-Frees :
    (vm : Vm) (pd pd_index pt_index n i : ℕ)
    → IsDirectory vm pd
    → IsCovered vm pd (pd_index * page_len + pt_index + i) n
    → Frees vm (free_loop pd pd_index pt_index n i vm) pd (pd_index * page_len + pt_index + i) n
unfolding free_loop
free_loop-Frees vm pd pd_index pt_index zero i is covered =
    none-Frees vm pd (pd_index * page_len + pt_index + i) is
free_loop-Frees vm pd pd_index pt_index (suc n) i is covered =
    let offset = pt_index + i in
    let r = pd_index + offset / page_len in
    let c = offset % page_len in
    let s = pd_index * page_len + pt_index + i in
    let vm1 = (virtual_unmap_physical pd r c vm).1 in
    let o : FreesOne vm vm1 pd s =
      unmap-FreesOne vm pd r c s is (omega arith) (omega arith) (covered_first vm pd s n covered) in
    let next : pd_index * page_len + pt_index + (i + 1) ≡ s + 1 = omega arith in
    let rest =
      free_loop-Frees vm1 pd pd_index pt_index n (i + 1) o.directory
        (rw next (FreesOne-IsCovered vm vm1 pd s n o covered)) in
    first-Frees vm vm1 pd s n o (free_loop pd pd_index pt_index n (i + 1) vm1) (rw next at rest)

pub free_pages-Frees :
    (vm : Vm) (pd virtual_addr size : ℕ)
    → IsDirectory vm pd
    → IsCovered vm pd (virtual_addr / 2 ^ 12) (times virtual_addr size)
    → Frees vm
        (free_pages pd virtual_addr size vm).1
        pd
        (virtual_addr / 2 ^ 12)
        (times virtual_addr size)
unfolding free_pages
free_pages-Frees vm pd virtual_addr size is covered =
    let start : pd_ind virtual_addr * page_len + pt_ind virtual_addr + 0 ≡ virtual_addr / 2 ^ 12 =
      omega arith in
    rw start at (
      free_loop-Frees vm pd (pd_ind virtual_addr) (pt_ind virtual_addr) (times virtual_addr size) 0
        is (rw start covered))
