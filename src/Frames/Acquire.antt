-- ===== src/Frames/Acquire.antt =====
-- `acquire_free_frame` hands out a frame that is free, once, and moves on to the next free one.
use p.Base.{
  ℕ, ◌+◌, ◌-◌, ◌*◌, ◌%◌, ◌^◌, ◌<◌, ◌≤◌, ◌≡◌, refl, ◌≢◌, arith, none, some, inl, inr, ◌==◌, update,
  Bool-cases,
}
use p.Frames.{
  Frames, null_read, walk, walk_fuel, acquired, stuck, acquire_with, acquire_free_frame, page_size,
  total_frames,
}
use p.Frames.Search.{IsChain, FirstFree, walk-FirstFree, walk_off_end}

-- The free list's invariant: `free_frame` points to frame `c`, and that is free.
pub record At (f : Frames) (c : ℕ) : Type 0 where
  pub chain : IsChain f.next
  pub points : f.free_frame ≡ some c
  pub inside : c < total_frames
  pub free : f.refcount c ≡ 0

-- What has changed when frame `c` has been handed out and the pointer stands at `j`.
pub record Handed (f g : Frames) (c j : ℕ) : Type 0 where
  pub counts : g.refcount ≡ update f.refcount c 1
  pub links : g.next ≡ f.next
  pub points : g.free_frame ≡ some j
  pub number : g.free_frame_num ≡ (f.free_frame_num + 2 ^ 32 - 1) % 2 ^ 32
  pub first : FirstFree (update f.refcount c 1) c j

later_free : (r : ℕ → ℕ) (c k d : ℕ) → c < k → c + d ≡ k → r k ≡ 0 → update r c 1 (c + d) ≡ 0
later_free r c k d lt e free = rw e (ground arith)

acquire_with-Handed :
    (fuel : ℕ) (f : Frames) (c k : ℕ)
    → total_frames < fuel
    → At f c
    → c < k
    → k < total_frames
    → f.refcount k ≡ 0
    → (g : Frames) × (j : ℕ) × (acquire_with fuel f ≡ acquired (c * page_size) g) × Handed f g c j
unfolding acquire_with
acquire_with-Handed fuel f c k enough at lt inside free =
    let one : (f.refcount c + 1) % 2 ^ 32 ≡ 1 = rw at.free refl in
    let (j, e, first) =
      walk-FirstFree (update f.refcount c 1) f.next at.chain fuel (k - c) c (omega arith)
        (omega arith) (later_free f.refcount c k (k - c) lt (omega arith) free) in
    let addr : (c * page_size) % 2 ^ 32 ≡ c * page_size = omega (arith, at.inside) in
    (
      record {
        refcount = update f.refcount c 1;
        next = f.next;
        free_frame = some j;
        free_frame_num = (f.free_frame_num + 2 ^ 32 - 1) % 2 ^ 32;
      },
      j,
      rw (at.points, one, e, addr) refl,
      record { counts = refl; links = refl; points = refl; number = refl; first = first },
    )

-- When the free pointer is at the free frame c, the frames are linked in order, and some frame
-- k behind c is free: acquire_free_frame returns the address of c, the count of c is now 1 and
-- no other count changes, the number of free frames is one less modulo 2 ^ 32, and the pointer
-- is at the first free frame behind c, so that the same holds for the next call.
pub acquire-Handed :
    (f : Frames) (c k : ℕ)
    → At f c
    → c < k
    → k < total_frames
    → f.refcount k ≡ 0
    → (g : Frames) × (j : ℕ) × (acquire_free_frame f ≡ acquired (c * page_size) g)
      × Handed f g c j
      × At g j
unfolding acquire_free_frame
acquire-Handed f c k at lt inside free =
    let (g, j, e, h) = acquire_with-Handed walk_fuel f c k (omega arith) at lt inside free in
    (
      g,
      j,
      e,
      h,
      record {
        chain = λ i lt. rw h.links (at.chain i lt);
        points = h.points;
        inside = h.first.inside;
        free = rw h.counts h.first.free;
      },
    )

acquire_with-stuck :
    (fuel : ℕ) (f : Frames) (c : ℕ)
    → total_frames < fuel
    → At f c
    → f.next (total_frames - 1) ≡ none
    → ((k : ℕ) → c < k → k < total_frames → f.refcount k ≢ 0)
    → acquire_with fuel f ≡ stuck
unfolding acquire_with
acquire_with-stuck fuel f c enough at last used =
    let one : (f.refcount c + 1) % 2 ^ 32 ≡ 1 = rw at.free refl in
    let e : walk fuel (update f.refcount c 1) f.next (some c) ≡ null_read =
      walk_off_end (update f.refcount c 1) f.next at.chain fuel (total_frames - 1 - c) c
        (omega arith) (omega (arith, at.inside)) last (λ k lo hi. used_now k lo hi) in
    rw (at.points, one, e) refl
  where
    used_now : (k : ℕ) → c ≤ k → k < total_frames → update f.refcount c 1 k ≢ 0
    used_now k lo hi = elim (Bool-cases (k == c)) [
      | inl here ↦ rw here (λ h. absurd (omega arith))
      | inr other ↦ rw other (used k (ground arith) hi)
    ]

-- When the frame at the free pointer is free, all frames behind it are in use and the last
-- frame's next is NULL, acquire_free_frame reads through NULL instead of returning.
pub acquire-stuck :
    (f : Frames) (c : ℕ)
    → At f c
    → f.next (total_frames - 1) ≡ none
    → ((k : ℕ) → c < k → k < total_frames → f.refcount k ≢ 0)
    → acquire_free_frame f ≡ stuck
unfolding acquire_free_frame
acquire-stuck f c at last used = acquire_with-stuck walk_fuel f c (omega arith) at last used
