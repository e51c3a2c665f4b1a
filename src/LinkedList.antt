-- ===== src/LinkedList.antt =====
-- kern/datastructure/linked_list.c: doubly linked lists over an explicit store.
pub mod Shape
pub mod Insert
pub mod Unlink
pub mod Delete
pub mod Move
use p.Base.{ℕ, ◌+◌, ◌-◌, ◌%◌, ◌^◌, Bool, ◌||◌, not, if◌then◌else◌, ◌==◌, update}

abbrev pub Ptr : Type 0
Ptr = ℕ

abbrev pub null : Ptr
null = 0

-- The fields of every `node` and of every `list`, each a function of the object's address.
-- A `length` is the 32-bit pattern of an `int`.
pub record Store : Type 0 where
  pub prev : Ptr → Ptr
  pub next : Ptr → Ptr
  pub length : Ptr → ℕ
  pub head : Ptr → Ptr
  pub tail : Ptr → Ptr

abbrev pub set_prev : Ptr → Ptr → Store → Store
set_prev j q m = record m { prev = update m.prev j q }

abbrev pub set_next : Ptr → Ptr → Store → Store
set_next j q m = record m { next = update m.next j q }

abbrev pub set_head : Ptr → Ptr → Store → Store
set_head l q m = record m { head = update m.head l q }

abbrev pub set_tail : Ptr → Ptr → Store → Store
set_tail l q m = record m { tail = update m.tail l q }

abbrev pub set_length : Ptr → ℕ → Store → Store
set_length l n m = record m { length = update m.length l n }

unfoldable pub list_init : Ptr → Store → Store
list_init l m = if l == null then m else set_length l 0 (set_tail l null (set_head l null m))

unfoldable pub list_begin : Ptr → Store → Ptr
list_begin l m = m.head l

unfoldable pub list_end : Ptr → Store → Ptr
list_end l m = m.tail l

-- `l->length--; return j;`
unfoldable pub list_shrink : Ptr → Ptr → Store → Ptr × Store
list_shrink l j m = (j, set_length l ((m.length l + 2 ^ 32 - 1) % 2 ^ 32) m)

-- The second half of `list_delete`: the link from the node behind `j`, or the list's tail.
unfoldable pub list_unlink_next : Ptr → Ptr → Store → Ptr × Store
unfolding list_shrink
list_unlink_next l j m =
    if not (m.next j == null)
    then list_shrink l j (set_prev (m.next j) (m.prev j) m)
    else if m.tail l == j
    then list_shrink l j (set_tail l (m.prev j) m)
    else (null, m)

unfoldable pub list_delete : Ptr → Ptr → Store → Ptr × Store
unfolding list_unlink_next
list_delete l j m =
    if l == null || j == null
    then (null, m)
    else if not (m.prev j == null)
    then list_unlink_next l j (set_next (m.prev j) (m.next j) m)
    else if m.head l == j
    then list_unlink_next l j (set_head l (m.next j) m)
    else (null, m)

unfoldable pub list_delete_first : Ptr → Store → Ptr × Store
list_delete_first l m = list_delete l (m.head l) m

unfoldable pub list_delete_last : Ptr → Store → Ptr × Store
list_delete_last l m = list_delete l (m.tail l) m

-- `l->length++;`
unfoldable pub list_grow : Ptr → Store → Store
list_grow l m = set_length l ((m.length l + 1) % 2 ^ 32) m

unfoldable pub list_insert_first : Ptr → Ptr → Store → Store
unfolding list_grow
list_insert_first l j m =
    if l == null || j == null
    then m
    else list_grow l (
        if m.head l == null
        then set_prev j null (set_next j null (set_head l j (set_tail l j m)))
        else set_head l j (set_prev j null (set_next j (m.head l) (set_prev (m.head l) j m))))

unfoldable pub list_insert_last : Ptr → Ptr → Store → Store
unfolding list_grow
list_insert_last l j m =
    if l == null || j == null
    then m
    else list_grow l (
        if m.tail l == null
        then set_prev j null (set_next j null (set_head l j (set_tail l j m)))
        else set_tail l j (set_next j null (set_prev j (m.tail l) (set_next (m.tail l) j m))))
