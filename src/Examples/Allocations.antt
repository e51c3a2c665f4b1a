-- ===== src/Examples/Allocations.antt =====
-- Requests for memory at a small address space.
use p.Base.{
  ◌==◌, ℕ, ◌/◌, ◌^◌, ◌≡◌, refl, false, Option, some, none, [], ◌∷◌, ◌++◌, arith, if◌then◌else◌,
}
use p.Frames.{acquire_free_frame, acquire_with, walk}
use p.Paging.{
  Vm, minus_one, acquire, allocate_pages, allocate_loop, virtual_map_physical, is_user_addr,
}
use p.Memory.{Space, is_taken, any_taken, rejects_new, sys_new_pages}
use p.Paging.Range.{CanMapAll, MapsAll}
use p.Memory.Grant.{new_pages-MapsAll}
use p.Examples.Pages.{memalign, one_page, no_tables}

-- The process has the page at 0x01403000, and one allocation, which begins there.
abbrev space : Space
space = record {
  pd = 4096;
  va = record { virtual_addr = 0x01403000; len = 4096 } ∷ [];
  vm = one_page;
}

abbrev vm_of : Option (ℕ × Vm) → Vm
vm_of none = one_page
vm_of (some (status, vm)) = vm

abbrev space_of : Option (ℕ × Space) → Space
space_of none = space
space_of (some (status, s)) = s

-- The page behind it.
abbrev vm_next : Vm
vm_next = vm_of (allocate_pages memalign 4096 0x01404000 4096 one_page)

allocated : allocate_pages memalign 4096 0x01404000 4096 one_page ≡ some (0, vm_next)
unfolding allocate_pages allocate_loop virtual_map_physical acquire acquire_free_frame acquire_with
    walk
allocated = refl

abbrev space_next : Space
space_next = space_of (sys_new_pages memalign 0x01404000 4096 space)

new_pages : sys_new_pages memalign 0x01404000 4096 space ≡ some (0, space_next)
unfolding sys_new_pages rejects_new any_taken is_taken is_user_addr allocate_pages allocate_loop
    virtual_map_physical acquire acquire_free_frame acquire_with walk
new_pages = refl

new_pages_again : sys_new_pages memalign 0x01403000 4096 space ≡ some (minus_one, space)
unfolding sys_new_pages rejects_new any_taken is_taken is_user_addr
new_pages_again = refl

-- The page's frame, number 9, has its one reference.
abbrev counted : Space
counted = record space {
  vm = record one_page {
    frames = record one_page.frames { refcount = λ f. if f == 9 then 1 else 0 };
  };
}

-- Frames 2 and 3 are free behind frame 1, and the allocator's pages are 65536, 69632 and so on.
can_map_all : CanMapAll memalign no_tables 4096 1 (2 ∷ 3 ∷ [])
can_map_all = record {
  directory = record { own = λ i h. absurd (h refl); distinct = λ i j ne hi hj. absurd (hi refl) };
  supplies = record {
    aligned = λ n h. omega arith;
    not_directory = λ n h. omega arith;
    unused = λ n i h used. absurd (used refl);
    distinct = λ n m h lt. omega arith;
  };
  frames = record { chain = λ i h. ground arith; points = refl; inside = omega arith; free = refl };
  not_first = omega arith;
  free = (omega arith, omega arith, refl, (omega arith, omega arith, refl, tt));
}

-- The process without pages or allocations.
abbrev empty : Space
empty = record { pd = 4096; va = []; vm = no_tables }

two_pages : rejects_new empty 0x01404000 8192 ≡ false
unfolding rejects_new any_taken is_taken is_user_addr
two_pages = refl

new_pages-MapsAll_example :
    (s' : Space) × (sys_new_pages memalign 0x01404000 8192 empty ≡ some (0, s'))
    × MapsAll no_tables s'.vm 4096 (0x01404000 / 2 ^ 12) (8192 / 4096)
    × (s'.va ≡ [] ++ (record { virtual_addr = 0x01404000; len = 8192 } ∷ []))
new_pages-MapsAll_example =
    new_pages-MapsAll memalign 0x01404000 8192 empty 1 (2 ∷ 3 ∷ []) two_pages (omega arith)
      can_map_all (omega arith) (record { directory = λ i h e. refl; pages = λ i j h e. refl })
