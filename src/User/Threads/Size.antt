-- ===== src/User/Threads/Size.antt =====
-- The size of a thread's stack.
use p.Base.{
  ℕ, ap, zero, suc, ◌+◌, ◌-◌, ◌*◌, ◌/◌, ◌%◌, ◌^◌, ◌<◌, ◌≤◌, ◌≡◌, refl, some, none, arith,
  if◌then◌else◌, ◌==◌, leb, Bool-cases, inl, inr,
}
use p.Frames.{page_size}
use p.User.Threads.{round_loop, adjusted_size}

-- The pages that hold `size` bytes, and one at least.
abbrev pub pages_for : ℕ → ℕ
pages_for size = if size == 0 then 1 else (size + 4095) / 4096

round_loop_lem :
    (fuel size i : ℕ)
    → 1 ≤ i
    → i ≤ pages_for size
    → pages_for size < i + fuel
    → size ≤ 2 ^ 32 - 4096
    → round_loop fuel size i ≡ some (pages_for size * page_size)
unfolding round_loop
round_loop_lem zero size i lo hi enough small = absurd (omega arith)
round_loop_lem (suc fuel) size i lo hi enough small =
    elim (Bool-cases (leb size (page_size * i % 2 ^ 32))) [
      | inl fits ↦
          let last : i ≡ pages_for size = ground (arith, fits) in
          let below : pages_for size < 2 ^ 20 = ground (arith, small) in
          rw fits (rw last (ap (λ (x : ℕ). some x) (omega arith)))
      | inr more ↦ rw more (
          round_loop_lem fuel size (i + 1) (omega arith) (ground (arith, more))
            (omega (arith, enough)) small)
    ]

round_loop-none : (fuel size i : ℕ) → 2 ^ 32 - 4096 < size → round_loop fuel size i ≡ none
unfolding round_loop
round_loop-none zero size i big = refl
round_loop-none (suc fuel) size i big = ground (arith, round_loop-none fuel size (i + 1) big)

-- For a size of at most 2 ^ 32 - 4096 and any fuel from 2 ^ 20 on, the loop of thr_init ends,
-- and a thread's stack gets the fewest pages that hold the size, one at least, and one page
-- more for the handler, as a 32-bit number of bytes.
pub adjusted_size-pages :
    (fuel size : ℕ)
    → 2 ^ 20 ≤ fuel
    → size ≤ 2 ^ 32 - 4096
    → adjusted_size fuel size ≡ some ((pages_for size + 1) * page_size % 2 ^ 32)
unfolding adjusted_size
adjusted_size-pages fuel size enough small =
    let below : pages_for size < 2 ^ 20 = ground (arith, small) in
    rw
      (
        adjusted_size,
        round_loop_lem fuel size 1 (omega arith) (ground arith) (ground (arith, enough)) small,
      )
      (ap (λ (x : ℕ). some x) (omega arith))

-- For a larger size it never ends.
adjusted_size-none : (fuel size : ℕ) → 2 ^ 32 - 4096 < size → adjusted_size fuel size ≡ none
unfolding adjusted_size
adjusted_size-none fuel size big = rw (adjusted_size, round_loop-none fuel size 1 big) refl
