-- ===== src/Examples/Copying.antt =====
-- Part of a `fork` at a small address space.
use p.Base.{none, ◌+◌, ◌*◌, ◌≡◌, refl, some, [], ◌∷◌, arith}
use p.Fork.{Forked, find_free_entry, find_from, find_in_table, copy_table}
use p.Fork.Entry.{Found, find_free_entry-Found}
use p.Fork.Translate.{IsRegion, walk_tables-page_addr}
use p.Fork.Copy.{CanCopy, TableCopied}
use p.Fork.Table.{copy_table-TableCopied}
use p.Examples.Pages.{one_page}

-- The first table of the directory at 4096 is that of region 5, whose first entry is vacant.
slot_found : find_free_entry one_page.tables 4096 ≡ some (record { pd_index = 5; pt_index = 0 })
unfolding find_free_entry find_from find_in_table
slot_found = refl

find_free_entry-Found_example :
    Found one_page.tables 4096 4 1020 (find_free_entry one_page.tables 4096)
find_free_entry-Found_example = find_free_entry-Found one_page.tables 4096

abbrev parent : Forked
parent = record { vm = one_page; copies = []; tlb = λ v. none }

can_copy :
    CanCopy one_page 4096 (record { pd_index = 5; pt_index = 0 }) 65536 8192 1 (2 ∷ 3 ∷ 4 ∷ 5 ∷ [])
can_copy = record {
  used = omega arith;
  not_pd = omega arith;
  vacant = refl;
  child_pd = omega arith;
  child_slot = omega arith;
  child_pt = omega arith;
  frames = record { chain = λ i h. ground arith; points = refl; inside = omega arith; free = refl };
  not_first = omega arith;
  free = (
    omega arith,
    omega arith,
    refl,
    (
      omega arith,
      omega arith,
      refl,
      (omega arith, omega arith, refl, (omega arith, omega arith, refl, tt)),
    ),
  );
}

region : IsRegion parent 4096 (record { pd_index = 5; pt_index = 0 }) 5 8192
region = record {
  region = refl;
  region_inside = omega arith;
  slot_inside = (omega arith, omega arith);
  translated = λ k inside. walk_tables-page_addr 4096 5 k one_page (omega arith) inside;
  unseen = refl;
}

copy_table-TableCopied_example :
    (f' : Forked) × (copy_table
        (λ n. 65536 + 4096 * n)
        4096
        (record { pd_index = 5; pt_index = 0 })
        65536
        5
        8192
        4
        0
        parent
      ≡ some (0, f'))
    × TableCopied parent f' 65536 8192 0 4
copy_table-TableCopied_example =
    copy_table-TableCopied (λ n. 65536 + 4096 * n) 4096 (record { pd_index = 5; pt_index = 0 })
      65536 5 8192 4 0 parent 1 (2 ∷ 3 ∷ 4 ∷ 5 ∷ []) can_copy region (omega arith) (omega arith)
