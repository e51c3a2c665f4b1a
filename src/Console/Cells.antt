-- ===== src/Console/Cells.antt =====
-- What the console's loops leave in video memory.
use p.Base.{
  ℕ, zero, suc, ◌+◌, ◌-◌, ◌*◌, ◌%◌, ◌^◌, ◌<◌, ◌≡◌, refl, Bool, ◌&&◌, arith, if◌then◌else◌, ◌==◌,
  ltb, leb, Bool-cases, inl, inr,
}
use p.Console.{
  Console, width, height, screen_bytes, put_cell, scroll_cell, scroll_row, scroll_rows, scroll_up,
  clear_row, clear_rows, clear_console, draw_char, get_char, update_cursor,
}

-- A byte of an empty cell: no character, and the colour.
abbrev pub blank : ℕ → ℕ → ℕ
blank color a = if a % 2 == 0 then 0 else color % 2 ^ 8

-- The specification of `scroll_up`: every row moves up by one, and the last one is empty.
abbrev pub scrolled : ℕ → (ℕ → ℕ) → ℕ → ℕ
scrolled color video a =
    if ltb a (screen_bytes - 2 * width)
    then video (a + 2 * width)
    else if ltb a screen_bytes
    then blank color a
    else video a

abbrev in_range : ℕ → ℕ → ℕ → Bool
in_range lo hi a = leb lo a && ltb a hi

copied_row :
    (n i j color : ℕ) (video : ℕ → ℕ) (a : ℕ)
    → i < height - 1
    → j + n ≡ width
    → scroll_row n i j color video a ≡ (
        if in_range (2 * (i * width + j)) (2 * (i * width + width)) a
        then video (a + 2 * width)
        else video a)
unfolding scroll_row
copied_row zero i j color video a hi e = ground arith
copied_row (suc n) i j color video a hi e =
    ground (arith, copied_row n i (j + 1) color (scroll_cell i j color video) a hi (omega arith))

blank_row :
    (n i j color : ℕ) (video : ℕ → ℕ) (a : ℕ)
    → i ≡ height - 1
    → j + n ≡ width
    → scroll_row n i j color video a ≡ (
        if in_range (2 * (i * width + j)) (2 * (i * width + width)) a
        then blank color a
        else video a)
unfolding scroll_row
blank_row zero i j color video a hi e = ground arith
blank_row (suc n) i j color video a hi e =
    ground (arith, blank_row n i (j + 1) color (scroll_cell i j color video) a hi (omega arith))

-- From row `i` on the rows are scrolled, and those above it are as they were.
scrolled_rows :
    (n i color : ℕ) (video : ℕ → ℕ) (a : ℕ)
    → i + n ≡ height
    → scroll_rows n i color video a
      ≡ (if leb (2 * (i * width)) a then scrolled color video a else video a)
unfolding scroll_rows
scrolled_rows zero i color video a e = ground arith
scrolled_rows (suc n) i color video a e = elim (Bool-cases (i == height - 1)) [
  | inl at ↦ ground (
    arith,
    scrolled_rows n (i + 1) color (scroll_row width i 0 color video) a (omega arith),
    blank_row width i 0 color video a (ground arith) refl,
  )
  | inr ne ↦ ground (
    arith,
    scrolled_rows n (i + 1) color (scroll_row width i 0 color video) a (omega arith),
    copied_row width i 0 color video a (ground arith) refl,
    copied_row width i 0 color video (a + 2 * width) (ground arith) refl,
  )
]

-- scroll_up moves every row of the screen up by one, blanks the last row in the current colour,
-- and changes no byte behind the screen.
pub scroll_up-scrolled : (c : Console) (a : ℕ) → (scroll_up c).video a ≡ scrolled c.color c.video a
unfolding scroll_up
scroll_up-scrolled c a = ground (arith, scrolled_rows height 0 c.color c.video a refl)

-- `clear_console`: every byte of the screen is that of an empty cell, and no other is written.
abbrev pub cleared : ℕ → (ℕ → ℕ) → ℕ → ℕ
cleared color video a = if ltb a screen_bytes then blank color a else video a

cleared_row :
    (n i j color : ℕ) (video : ℕ → ℕ) (a : ℕ)
    → j + n ≡ width
    → clear_row n i j color video a ≡ (
        if in_range (2 * (i * width + j)) (2 * (i * width + width)) a
        then blank color a
        else video a)
unfolding clear_row
cleared_row zero i j color video a e = ground arith
cleared_row (suc n) i j color video a e = ground (
  arith,
  cleared_row n i (j + 1) color (put_cell (i * width + j) 0 (color % 2 ^ 8) video) a (omega arith),
)

cleared_rows :
    (n i color : ℕ) (video : ℕ → ℕ) (a : ℕ)
    → i + n ≡ height
    → clear_rows n i color video a
      ≡ (if leb (2 * (i * width)) a then cleared color video a else video a)
unfolding clear_rows
cleared_rows zero i color video a e = ground arith
cleared_rows (suc n) i color video a e = ground (
  arith,
  cleared_rows n (i + 1) color (clear_row width i 0 color video) a (omega arith),
  cleared_row width i 0 color video a refl,
)

video-update_cursor : (c : Console) → (update_cursor c).video ≡ c.video
unfolding update_cursor
video-update_cursor c = ground arith

-- clear_console makes every cell of the screen an empty one in the current colour and changes
-- no byte behind the screen.
clear_console-cleared :
    (c : Console) (a : ℕ) → (clear_console c).video a ≡ cleared c.color c.video a
unfolding clear_console
clear_console-cleared c a =
    rw
      (video-update_cursor
        (record c { row = 0; col = 0; video = clear_rows height 0 c.color c.video }))
      (ground (arith, cleared_rows height 0 c.color c.video a refl))

-- The position is on the screen.
abbrev on_screen : ℕ → ℕ → Bool
on_screen row col = ltb row height && ltb col width

-- For a colour below 256, get_char after draw_char finds the character, as a byte, at its
-- position if that is on the screen, and at every other position what was there before.
get_char-draw_char :
    (row col ch color row' col' : ℕ) (c : Console)
    → color < 2 ^ 8
    → get_char row' col' (draw_char row col ch color c) ≡ (
        if on_screen row col && ((row == row') && (col == col'))
        then ch % 2 ^ 8
        else get_char row' col' c)
unfolding get_char draw_char
get_char-draw_char row col ch color row' col' c h = ground arith
