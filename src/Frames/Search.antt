-- ===== src/Frames/Search.antt =====
-- The loop of `acquire_free_frame`: it stops at the first free frame.
use p.Base.{
  ℕ, zero, suc, ◌+◌, ◌-◌, ◌<◌, ◌≤◌, ◌≡◌, refl, ap, ◌≢◌, ◌∙◌, inl, inr, true, false, arith, Option,
  none, some, ◌==◌, ne→==-false, Bool-cases,
}
use native.Mathlib.Nat.{add-zero}
use native.Mathlib.Decide.{dec_lt}
use p.Frames.{found, null_read, walk, total_frames, init_free_frame}

-- Each frame but the last points to the one behind it, as `init_free_frame` leaves them.
abbrev pub IsChain : (ℕ → Option ℕ) → Type 0
IsChain next = (i : ℕ) → i + 1 < total_frames → next i ≡ some (i + 1)

pub init-IsChain : (phys : ℕ) (stale : Option ℕ) → IsChain (init_free_frame phys stale).next
unfolding init_free_frame
init-IsChain phys stale i h = ground arith

-- Frame `j` is free, and no frame from `i` on before it is.
pub record FirstFree (refcount : ℕ → ℕ) (i j : ℕ) : Type 0 where
  pub behind : i ≤ j
  pub inside : j < total_frames
  pub free : refcount j ≡ 0
  pub used_before : (k : ℕ) → i ≤ k → k < j → refcount k ≢ 0

module _ (refcount : ℕ → ℕ) (next : ℕ → Option ℕ) (chain : IsChain next) where
  -- With a free frame `d` steps ahead, more rounds than `d` find the first one.
  pub walk-FirstFree :
      (fuel d i : ℕ)
      → d < fuel
      → i + d < total_frames
      → refcount (i + d) ≡ 0
      → (j : ℕ) × (walk fuel refcount next (some i) ≡ found j) × FirstFree refcount i j
  unfolding walk
  walk-FirstFree zero d i h inside free = elim h [ ]
  walk-FirstFree (suc fuel) zero i h inside free =
      let e : (refcount i == 0) ≡ true = ground (arith, add-zero i) in
      (
        i,
        rw e refl,
        record {
          behind = omega arith;
          inside = omega arith;
          free = ground arith;
          used_before = λ k lo hi. absurd (omega arith);
        },
      )
  walk-FirstFree (suc fuel) (suc d) i h inside free = elim (Bool-cases (refcount i == 0)) [
    | inl e ↦ (
      i,
      rw e refl,
      record {
        behind = omega arith;
        inside = omega arith;
        free = ground arith;
        used_before = λ k lo hi. absurd (omega arith);
      },
    )
    | inr e ↦
        let at : i + 1 + d ≡ i + suc d = omega arith in
        let (j, eq, first) =
          walk-FirstFree fuel d (i + 1) (omega arith) (omega arith) (ap refcount at ∙ free) in
        (j, rw (e, chain i (omega arith)) eq, FirstFree-before i j e first)
  ]
    where
      FirstFree-before :
          (i j : ℕ)
          → (refcount i == 0) ≡ false
          → FirstFree refcount (i + 1) j
          → FirstFree refcount i j
      FirstFree-before i j e first = record {
        behind = omega (arith, first.behind);
        inside = first.inside;
        free = first.free;
        used_before = λ k lo hi. elim (dec_lt i k) [
          | yes above ↦ first.used_before k (omega arith) hi
          | no here ↦ ground arith
        ];
      }

  -- With every frame from `i` to the last in use and nothing behind the last, the walk runs into
  -- NULL.
  pub walk_off_end :
      (fuel d i : ℕ)
      → d < fuel
      → i + d + 1 ≡ total_frames
      → next (total_frames - 1) ≡ none
      → ((k : ℕ) → i ≤ k → k < total_frames → refcount k ≢ 0)
      → walk fuel refcount next (some i) ≡ null_read
  unfolding walk
  walk_off_end zero d i h e last used = elim h [ ]
  walk_off_end (suc zero) zero i h e last used =
      rw (ne→==-false (refcount i) 0 (used i (omega arith) (omega arith)), at_end)
    where
      at_end : next i ≡ none
      at_end = ap next (omega arith) ∙ last
  walk_off_end (suc (suc fuel)) zero i h e last used =
      rw (ne→==-false (refcount i) 0 (used i (omega arith) (omega arith)), at_end)
    where
      at_end : next i ≡ none
      at_end = ap next (omega arith) ∙ last
  walk_off_end (suc fuel) (suc d) i h e last used =
      rw (ne→==-false (refcount i) 0 (used i (omega arith) (omega arith)), chain i (omega arith))
        (walk_off_end fuel d (i + 1) (omega arith) (omega arith) last
          (λ k lo hi. used k (omega arith) hi))
