-- ===== src/Console/Cursor.antt =====
-- The hardware cursor, and where a printed character is found again.
use p.Base.{ℕ, ◌+◌, ◌-◌, ◌*◌, ◌^◌, ◌<◌, ◌≡◌, Bool, true, arith, if◌then◌else◌, ◌==◌, ltb, ◌&&◌, not}
use p.Console.{
  Console, width, height, msb_idx, lsb_idx, update_cursor, set_cursor, get_cursor, printbyte,
  print_step, cursor_next, put_here, scroll_up, get_char,
}
use p.Console.Cells.{scroll_up-scrolled}
use p.Console.Bounds.{OnScreen}

-- The two cursor registers hold the cell at which the hardware shows the cursor.
abbrev pub shown_at : Console → ℕ
shown_at c = c.crtc msb_idx * 2 ^ 8 + c.crtc lsb_idx

-- For a cursor within the 25 rows and 80 columns, update_cursor leaves the two cursor registers
-- holding the cursor's cell when it is visible, and 0xFFFF when it is hidden.
update_cursor-shown_at :
    (c : Console)
    → c.row < height
    → c.col < width
    → shown_at (update_cursor c) ≡ (if c.is_visible then c.row * width + c.col else 0xFFFF)
unfolding update_cursor
update_cursor-shown_at c hr hc = ground arith

-- For two 32-bit arguments, set_cursor returns 0 and get_cursor then gives these coordinates
-- when they are on the screen; otherwise it returns -1 and get_cursor gives what it gave
-- before.
set_cursor_lem :
    (row col : ℕ) (c : Console)
    → row < 2 ^ 32
    → col < 2 ^ 32
    → let (status, c') = set_cursor row col c in
      let ok = ltb row height && ltb col width in
      (status ≡ (if ok then 0 else 2 ^ 32 - 1))
      × (get_cursor c' ≡ (if ok then (row, col) else get_cursor c))
unfolding set_cursor get_cursor
set_cursor_lem row col c hr hc = ground arith

-- A character that is not a control character.
abbrev pub is_plain : ℕ → Bool
is_plain ch = not (ch == 8) && (not (ch == 10) && not (ch == 13))

-- How many lines the screen scrolls after a character: one, behind the last cell.
abbrev pub lines : Console → ℕ
lines c = if (c.row == height - 1) && (c.col == width - 1) then 1 else 0

print_step_plain :
    (reading : ℕ → ℕ) (ch : ℕ) (c : Console)
    → is_plain ch ≡ true
    → print_step reading ch c ≡ cursor_next reading (put_here ch c)
unfolding print_step
print_step_plain reading ch c plain = ground arith

-- With a visible cursor on the screen, and `row = row ++` read as an increment, printing a
-- character that is no control character puts it at the cursor's cell, where get_char finds it,
-- one row higher if the screen has scrolled; the cursor moves on by one cell, less the row by
-- which the screen has scrolled.
printbyte-get_char :
    (reading : ℕ → ℕ) (ch : ℕ) (c : Console)
    → OnScreen c
    → is_plain ch ≡ true
    → reading c.row ≡ c.row + 1
    → let c' = printbyte reading ch c in
      (get_char (c.row - lines c) c.col c' ≡ ch)
      × (c'.row * width + c'.col + lines c * width ≡ c.row * width + c.col + 1)
unfolding printbyte get_char cursor_next scroll_up
printbyte-get_char reading ch c v plain inc =
    let next = cursor_next reading (put_here ch c) in
    rw (print_step_plain reading ch c plain)
      (ground (arith, scroll_up-scrolled next (2 * ((c.row - lines c) * width + c.col))))
