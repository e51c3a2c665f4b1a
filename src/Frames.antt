-- ===== src/Frames.antt =====
-- The free list of kern/memory/vm_routines.c: an array of reference counts, one to a physical frame,
-- and a pointer to a frame that is free.
pub mod Search
pub mod Acquire
pub mod Release
use p.Base.{
  ℕ, zero, suc, ◌+◌, ◌-◌, ◌*◌, ◌/◌, ◌%◌, ◌^◌, Option, none, some, if◌then◌else◌, ◌==◌, not, update,
}

-- PAGE_SIZE and TOTAL_PHYS_FRAMES
abbrev pub page_size : ℕ
page_size = 4096

abbrev pub total_frames : ℕ
total_frames = 65536

-- `frame_base` as its two fields by index, `free_frame` as an index (`none` is NULL), and the
-- `int` `free_frame_num` as a 32-bit pattern.
pub record Frames : Type 0 where
  pub refcount : ℕ → ℕ
  pub next : ℕ → Option ℕ
  pub free_frame : Option ℕ
  pub free_frame_num : ℕ

-- `machine_phys_frames` and what the last frame's `next`, which the loop never sets, holds are
-- arguments.
unfoldable pub init_free_frame : ℕ → Option ℕ → Frames
init_free_frame phys_frames stale = record {
  refcount = λ i. 0;
  next = λ i. if not (i == total_frames - 1) then some (i + 1) else stale;
  free_frame = some 0;
  free_frame_num = phys_frames;
}

-- `while (free_frame->refcount != 0) free_frame = free_frame->next;`
pub data Walk : Type 0 where
  found : ℕ → Walk
  null_read : Walk
  no_fuel : Walk

unfoldable pub walk : ℕ → (ℕ → ℕ) → (ℕ → Option ℕ) → Option ℕ → Walk
walk fuel refcount next none = null_read
walk zero refcount next (some i) = no_fuel
walk (suc fuel) refcount next (some i) =
    let rest = walk fuel refcount next (next i) in if not (refcount i == 0) then rest else found i

-- A state and a result, or the loop's read through NULL or its running on.
pub data Acquired : Type 0 where
  acquired : ℕ → Frames → Acquired
  stuck : Acquired

abbrev pub resume : Walk → ℕ → Frames → Acquired
resume (found j) addr f = acquired addr (record f { free_frame = some j })
resume null_read addr f = stuck
resume no_fuel addr f = stuck

-- The loop passes each frame at most once before it is at the last one, so `total_frames + 1`
-- rounds are enough.
abbrev pub walk_fuel : ℕ
walk_fuel = total_frames + 1

abbrev acquire_at : ℕ → ℕ → Frames → Acquired
acquire_at fuel i f =
    let counted = update f.refcount i ((f.refcount i + 1) % 2 ^ 32) in
    resume (walk fuel counted f.next (some i)) ((i * page_size) % 2 ^ 32)
      (record f { refcount = counted; free_frame_num = (f.free_frame_num + 2 ^ 32 - 1) % 2 ^ 32 })

-- The fuel is an argument so that proofs can leave it a variable.
unfoldable pub acquire_with : ℕ → Frames → Acquired
acquire_with fuel f = elim f.free_frame [
  | none ↦ acquired (2 ^ 32 - 1) f
  | some i ↦ acquire_at fuel i f
]

unfoldable pub acquire_free_frame : Frames → Acquired
acquire_free_frame f = acquire_with walk_fuel f

unfoldable pub release_free_frame : ℕ → Frames → Frames
release_free_frame address f =
    let index = address / page_size in
    let left = (f.refcount index + 2 ^ 32 - 1) % 2 ^ 32 in
    record {
      refcount = update f.refcount index left;
      next = f.next;
      free_frame = if left == 0 then some index else f.free_frame;
      free_frame_num = (f.free_frame_num + 1) % 2 ^ 32;
    }
