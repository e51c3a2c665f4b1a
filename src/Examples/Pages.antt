-- ===== src/Examples/Pages.antt =====
-- Frames, page tables and allocations at concrete states.
use p.Base.{
  ℕ, ◌+◌, ◌*◌, ◌≡◌, refl, Option, some, none, [], arith, if◌then◌else◌, ◌==◌, ◌&&◌, update,
}
use p.Frames.{Frames, acquired, acquire_free_frame, acquire_with, walk}
use p.Frames.Acquire.{At}
use p.Paging.{Vm, virtual_map_physical, virtual_unmap_physical}
use p.Paging.View.{pte, IsDirectory}
use p.Paging.Map.{CanMap}
use p.Paging.Unmap.{unmap-map}

abbrev chain : ℕ → Option ℕ
chain i = if i == 65535 then none else some (i + 1)

-- Frame 0 is in use and all others are free.
abbrev frames : Frames
frames = record {
  refcount = λ i. if i == 0 then 1 else 0;
  next = chain;
  free_frame = some 1;
  free_frame_num = 999;
}

frames-At : At frames 1
frames-At = record { chain = λ i h. ground arith; points = refl; inside = omega arith; free = refl }

-- Frame 1 alone is free.
abbrev crowded : Frames
crowded = record {
  refcount = λ i. if i == 1 then 0 else 1;
  next = chain;
  free_frame = some 1;
  free_frame_num = 1;
}

crowded-At : At crowded 1
crowded-At = record {
  chain = λ i h. ground arith;
  points = refl;
  inside = omega arith;
  free = refl;
}

abbrev frames_next : Frames
frames_next = record {
  refcount = update frames.refcount 1 1;
  next = chain;
  free_frame = some 2;
  free_frame_num = 998;
}

acquired_next : acquire_free_frame frames ≡ acquired 4096 frames_next
unfolding acquire_free_frame acquire_with walk
acquired_next = refl

abbrev pub memalign : ℕ → ℕ
memalign n = 65536 + 4096 * n

-- The directory at 4096 is empty.
abbrev pub no_tables : Vm
no_tables = record { frames = frames; tables = λ t i. 0; zeroed = []; allocs = 0 }

can_map : CanMap memalign no_tables 4096 1 2
can_map = record {
  directory = record { own = λ i h. absurd (h refl); distinct = λ i j ne hi hj. absurd (hi refl) };
  new = record { aligned = refl; not_directory = omega arith; unused = λ i h. absurd (h refl) };
  frames = frames-At;
  not_first = omega arith;
  behind = omega arith;
  inside = omega arith;
  free = refl;
}

-- The directory has a table at 8192 for region 5, with a page for entry 3: address 0x01403000.
abbrev pub one_page : Vm
one_page = record {
  frames = frames;
  tables = λ t i.
      if (t == 4096) && (i == 5)
      then 8192 + 7
      else if (t == 8192) && (i == 3)
      then 0 + 4096 * 9 + 7
      else 0;
  zeroed = [];
  allocs = 0;
}

pub one_page-IsDirectory : IsDirectory one_page 4096
one_page-IsDirectory = record { own = λ i h. ground arith; distinct = λ i j ne hi hj. ground arith }

unmap-map_example :
    (vm' : Vm) × (virtual_map_physical memalign 4096 5 3 no_tables ≡ some (0, vm'))
    × ((virtual_unmap_physical 4096 5 3 vm').0 ≡ 0)
    × ((i j : ℕ) → pte (virtual_unmap_physical 4096 5 3 vm').1 4096 i j ≡ pte no_tables 4096 i j)
    × ((f : ℕ)
        → (virtual_unmap_physical 4096 5 3 vm').1.frames.refcount f ≡ no_tables.frames.refcount f)
unmap-map_example = unmap-map memalign no_tables 4096 5 3 1 2 can_map refl
