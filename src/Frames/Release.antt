-- ===== src/Frames/Release.antt =====
-- `release_free_frame`, and what becomes of the frames that it leaves behind.
use p.Base.{
  ℕ, zero, suc, ◌+◌, ◌-◌, ◌*◌, ◌/◌, ◌%◌, ◌^◌, ◌<◌, ◌≤◌, ◌≡◌, refl, sym, ◌≢◌, ◌∙◌, arith, none,
  if◌then◌else◌, ◌==◌, update, ne→==-false, Bool-cases, inl, inr,
}
use mathlib.Core.Path.{subst}
use p.Frames.{
  Frames, acquired, stuck, acquire_free_frame, release_free_frame, page_size, total_frames,
}
use p.Frames.Acquire.{At, Handed, acquire-Handed, acquire-stuck}

-- The frame whose last reference goes is the one that the next call of `acquire_free_frame` hands
-- out; a frame that is still shared leaves the pointer where it is.
abbrev pub points_after : Frames → ℕ → ℕ → ℕ
points_after f k c = if f.refcount k == 1 then k else c

-- When the free pointer is at a free frame and frame k has a count between 1 and 2 ^ 32 - 1,
-- release_free_frame of its address lowers that count by one and no other, and the pointer is
-- at a free frame again: at k when its last reference is gone, and where it was otherwise.
release-At :
    (f : Frames) (c k : ℕ)
    → At f c
    → k < total_frames
    → 0 < f.refcount k
    → f.refcount k < 2 ^ 32
    → At (release_free_frame (k * page_size) f) (points_after f k c)
      × ((release_free_frame (k * page_size) f).refcount ≡ update f.refcount k (f.refcount k - 1))
unfolding release_free_frame
release-At f c k at inside pos small =
    let index : (k * page_size) / page_size ≡ k = omega arith in
    let less : (f.refcount k + 2 ^ 32 - 1) % 2 ^ 32 ≡ f.refcount k - 1 = omega arith in
    rw (index, less)
      (
        record {
          chain = at.chain;
          points = ground (arith, at.points);
          inside = ground (arith, at.inside);
          free = ground (arith, at.free);
        },
        refl,
      )

next-release : (f : Frames) (a : ℕ) → (release_free_frame a f).next ≡ f.next
unfolding release_free_frame
next-release f a = refl

-- When frame c at the pointer is free, frame k behind it has one reference, all frames behind k
-- are in use and the last frame's next is NULL: after release_free_frame of k the frame c is
-- still free, but the next acquire_free_frame reads through NULL.
release_loses :
    (f : Frames) (c k : ℕ)
    → At f c
    → c < k
    → k < total_frames
    → f.refcount k ≡ 1
    → f.next (total_frames - 1) ≡ none
    → ((i : ℕ) → k < i → i < total_frames → f.refcount i ≢ 0)
    → let g = release_free_frame (k * page_size) f in
      (g.refcount c ≡ 0) × (acquire_free_frame g ≡ stuck)
release_loses f c k at lt inside one last used =
    let g = release_free_frame (k * page_size) f in
    let (at', counts) = release-At f c k at inside (omega arith) (omega arith) in
    let here : points_after f k c ≡ k = rw one refl in
    let at_k : At g k = subst (At g) here at' in
    (
      rw counts (ground (arith, at.free)),
      acquire-stuck g k at_k (rw next-release last)
          (λ i lo hi. rw counts (kept i lo (used i lo hi))),
    )
  where
    kept : (i : ℕ) → k < i → f.refcount i ≢ 0 → update f.refcount k (f.refcount k - 1) i ≢ 0
    kept i lo ne = rw (ne→==-false i k (omega arith)) ne

-- The sum of the first `n` counts.
pub sum : ℕ → (ℕ → ℕ) → ℕ
sum zero r = 0
sum (suc n) r = r n + sum n r

sum-ahead : (n i v : ℕ) (r : ℕ → ℕ) → n ≤ i → sum n (update r i v) ≡ sum n r
unfolding sum
sum-ahead zero i v r h = refl
sum-ahead (suc n) i v r h = ground (arith, sum-ahead n i v r (omega arith))

sum-update : (n i v : ℕ) (r : ℕ → ℕ) → i < n → sum n (update r i v) + r i ≡ sum n r + v
unfolding sum
sum-update zero i v r h = elim h [ ]
sum-update (suc n) i v r h = elim (Bool-cases (n == i)) [
  | inl e ↦ ground (arith, sum-ahead n i v r (ground arith))
  | inr e ↦ ground (arith, sum-update n i v r (ground arith))
]

-- References held, and frames counted as free.
abbrev pub balance : Frames → ℕ
balance f = sum total_frames f.refcount + f.free_frame_num

Handed-balance :
    (f g : Frames) (c j : ℕ)
    → Handed f g c j
    → c < total_frames
    → f.refcount c ≡ 0
    → 0 < f.free_frame_num
    → f.free_frame_num < 2 ^ 32
    → balance g ≡ balance f
Handed-balance f g c j h inside free pos small =
    rw (h.counts, h.number) (omega (arith, sum-update total_frames c 1 f.refcount inside))

acquired-injective : {a b : ℕ} {f g : Frames} → acquired a f ≡ acquired b g → f ≡ g
acquired-injective e = cc

-- When a free frame stands behind the free frame at the pointer and the number of free frames
-- is positive, acquire_free_frame keeps the sum of all reference counts and of the number of
-- free frames.
acquire-balance :
    (f g : Frames) (c k a : ℕ)
    → At f c
    → c < k
    → k < total_frames
    → f.refcount k ≡ 0
    → 0 < f.free_frame_num
    → f.free_frame_num < 2 ^ 32
    → acquire_free_frame f ≡ acquired a g
    → balance g ≡ balance f
acquire-balance f g c k a at lt inside free pos small got =
    let (g', j, e, h, at') = acquire-Handed f c k at lt inside free in
    let same : g' ≡ g = acquired-injective (sym e ∙ got) in
    rw (← same) (Handed-balance f g' c j h at.inside at.free pos small)

-- For a frame with a positive count, release_free_frame keeps the sum of all reference counts
-- and of the number of free frames, as long as neither wraps.
release-balance :
    (f : Frames) (k : ℕ)
    → k < total_frames
    → 0 < f.refcount k
    → f.refcount k < 2 ^ 32
    → f.free_frame_num + 1 < 2 ^ 32
    → balance (release_free_frame (k * page_size) f) ≡ balance f
unfolding release_free_frame
release-balance f k inside pos small room =
    let index : (k * page_size) / page_size ≡ k = omega arith in
    let less : (f.refcount k + 2 ^ 32 - 1) % 2 ^ 32 ≡ f.refcount k - 1 = omega arith in
    rw (index, less) (omega (arith, sum-update total_frames k (f.refcount k - 1) f.refcount inside))

-- What a release does to the counts, whatever the free list's state.
pub release-counts :
    (f : Frames) (k : ℕ)
    → 0 < f.refcount k
    → f.refcount k < 2 ^ 32
    → (release_free_frame (k * page_size) f).refcount ≡ update f.refcount k (f.refcount k - 1)
unfolding release_free_frame
release-counts f k pos small =
    let index : (k * page_size) / page_size ≡ k = omega arith in
    let less : (f.refcount k + 2 ^ 32 - 1) % 2 ^ 32 ≡ f.refcount k - 1 = omega arith in
    rw (index, less) refl
