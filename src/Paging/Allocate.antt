-- ===== src/Paging/Allocate.antt =====
-- `allocate_pages` maps every page of its range.
use p.Base.{
  ℕ, zero, suc, ◌+◌, ◌*◌, ◌/◌, ◌%◌, ◌^◌, ◌<◌, ◌≤◌, ◌≡◌, refl, ◌∙◌, false, some, List, [], ◌∷◌,
  arith, ◌==◌, length,
}
use p.Paging.{Vm, page_len, allocate_loop, allocate_pages, pd_ind, pt_ind, times}
use p.Paging.View.{IsDirectory}
use p.Paging.Map.{map-Stepped}
use p.Paging.Range.{
  CanMapAll, CanMapAll-CanMap, Stepped-CanMapAll, MapsAll, IsVacant, page_at, first-MapsAll,
}

none-MapsAll : (vm : Vm) (pd start : ℕ) → IsDirectory vm pd → MapsAll vm vm pd start 0
none-MapsAll vm pd start is = record {
  directory = is;
  mapped = λ a b hb inside. absurd (ground (arith, inside));
  kept = λ a b hb out. refl;
  counts = λ f used. refl;
  unshared = λ a b a' b' hb hb' inside inside' e. absurd (ground (arith, inside));
}

allocate_loop-MapsAll :
    (memalign : ℕ → ℕ) (pd pd_index pt_index n i : ℕ) (vm : Vm) (c start : ℕ) (ks : List ℕ)
    → CanMapAll memalign vm pd c ks
    → n ≤ length ks
    → pd_index * page_len + pt_index + i ≡ start
    → IsVacant vm pd start n
    → (vm' : Vm) × (allocate_loop memalign pd pd_index pt_index n i vm ≡ some (0, vm'))
      × MapsAll vm vm' pd start n
unfolding allocate_loop
allocate_loop-MapsAll memalign pd pd_index pt_index zero i vm c start ks can enough at vacant =
    (vm, refl, none-MapsAll vm pd start can.directory)
allocate_loop-MapsAll memalign pd pd_index pt_index (suc n) i vm c start [] can enough at vacant =
    absurd (omega arith)
allocate_loop-MapsAll memalign pd pd_index pt_index (suc n) i vm c start (k ∷ ks) can enough at
      vacant =
    let offset = pt_index + i in
    let r = pd_index + offset / page_len in
    let o = offset % page_len in
    let here : r * page_len + o ≡ start = omega (arith, at) in
    let small : o < page_len = omega arith in
    let (vm1, q, e, s) =
      map-Stepped memalign vm pd r o c k (CanMapAll-CanMap memalign vm pd c k ks can)
        (vacant r o small (ground (arith, here))) in
    let vacant1 : IsVacant vm1 pd (start + 1) n = λ a b hb inside.
      let h : (a * page_len + b == start) ≡ false = ground (arith, inside) in
      page_at vm vm1 pd start r o c here small s.maps a b hb
      ∙ (rw h (vacant a b hb (ground (arith, inside)))) in
    let (vm', e', rest) =
      allocate_loop-MapsAll memalign pd pd_index pt_index n (i + 1) vm1 q (start + 1) ks
        (Stepped-CanMapAll memalign vm vm1 pd r o c q k ks can s) (omega (arith, enough))
        (omega (arith, at)) vacant1 in
    (
      vm',
      rw (e, e') refl,
      first-MapsAll vm vm1 vm' pd start n r o c here small s.maps can.not_first can.frames.free
          rest,
    )

-- When frame `c` is next to be handed out, at least as many further frames as the range has pages
-- are free behind it, the allocator's pages are new, and no page of the range is mapped:
-- allocate_pages returns 0, and then each page of the range has a writable user mapping to a frame
-- of its own that was free and now has one user, every other page is mapped as before, and no
-- frame in use has lost or gained a user.
pub allocate_pages-MapsAll :
    (memalign : ℕ → ℕ) (pd virtual_addr size : ℕ) (vm : Vm) (c : ℕ) (ks : List ℕ)
    → CanMapAll memalign vm pd c ks
    → times virtual_addr size ≤ length ks
    → IsVacant vm pd (virtual_addr / 2 ^ 12) (times virtual_addr size)
    → (vm' : Vm) × (allocate_pages memalign pd virtual_addr size vm ≡ some (0, vm'))
      × MapsAll vm vm' pd (virtual_addr / 2 ^ 12) (times virtual_addr size)
unfolding allocate_pages
allocate_pages-MapsAll memalign pd virtual_addr size vm c ks can enough vacant =
    let start : pd_ind virtual_addr * page_len + pt_ind virtual_addr + 0 ≡ virtual_addr / 2 ^ 12 =
      omega arith in
    allocate_loop-MapsAll memalign pd (pd_ind virtual_addr) (pt_ind virtual_addr)
      (times virtual_addr size) 0 vm c (virtual_addr / 2 ^ 12) ks can enough start vacant
