-- ===== src/Console.antt =====
-- kern/hardware/console.c: the text console. `myCursor`, the video memory from CONSOLE_MEM_BASE on
-- and the two cursor registers of the CRTC are one record; a function that changes them returns it.
pub mod Bounds
pub mod Cells
pub mod Cursor
use p.Base.{
  ℕ, zero, suc, ◌+◌, ◌-◌, ◌*◌, ◌/◌, ◌%◌, ◌^◌, Bool, true, false, not, ◌||◌, if◌then◌else◌, ◌==◌,
  ltb, leb, update,
}

-- CONSOLE_WIDTH and CONSOLE_HEIGHT
abbrev pub width : ℕ
width = 80

abbrev pub height : ℕ
height = 25

-- The bytes of the screen, two for each position.
abbrev pub screen_bytes : ℕ
screen_bytes = 4000

-- CRTC_IDX_REG, CRTC_DATA_REG, CRTC_CURSOR_MSB_IDX, CRTC_CURSOR_LSB_IDX
abbrev pub idx_reg : ℕ
idx_reg = 0x3d4

abbrev pub data_reg : ℕ
data_reg = 0x3d5

abbrev pub msb_idx : ℕ
msb_idx = 14

abbrev pub lsb_idx : ℕ
lsb_idx = 15

-- `row` and `col` are `int`s that the code never makes negative. `video` is the byte at an offset
-- from CONSOLE_MEM_BASE, `crtc_idx` and `crtc` the index and the registers of the CRTC.
pub record Console : Type 0 where
  pub row : ℕ
  pub col : ℕ
  pub color : ℕ
  pub offset : ℕ
  pub is_visible : Bool
  pub video : ℕ → ℕ
  pub crtc_idx : ℕ
  pub crtc : ℕ → ℕ

-- An `int` argument is a 32-bit pattern; it is negative from 2 ^ 31 on.
abbrev pub negative : ℕ → Bool
negative a = leb (2 ^ 31) a

-- The port writes that the CRTC answers to: the data register writes to the chosen register.
unfoldable pub outb : ℕ → ℕ → Console → Console
outb port v c =
    if port == idx_reg
    then record c { crtc_idx = v }
    else if port == data_reg
    then record c { crtc = update c.crtc c.crtc_idx v }
    else c

unfoldable pub update_offset : Console → Console
update_offset c =
    if not c.is_visible
    then record c { offset = 0xFFFF }
    else record c { offset = (width * c.row + c.col) % 2 ^ 16 }

unfoldable pub update_cursor : Console → Console
unfolding update_offset outb
update_cursor c =
    let c1 = update_offset c in
    let high_bits = (c1.offset / 2 ^ 8) % 2 ^ 8 in
    let low_bits = c1.offset % 2 ^ 8 in
    outb data_reg low_bits
      (outb idx_reg lsb_idx (outb data_reg high_bits (outb idx_reg msb_idx c1)))

unfoldable pub set_term_color : ℕ → Console → ℕ × Console
set_term_color color c =
    if negative color || ltb 0xFF color then (2 ^ 32 - 1, c) else (0, record c { color = color })

unfoldable pub get_term_color : Console → ℕ
get_term_color c = c.color

unfoldable pub set_cursor : ℕ → ℕ → Console → ℕ × Console
unfolding update_cursor
set_cursor row col c =
    if negative row || leb height row
    then (2 ^ 32 - 1, c)
    else if negative col || leb width col
    then (2 ^ 32 - 1, c)
    else (0, update_cursor (record c { row = row; col = col }))

-- The two results go through pointers that the caller has checked.
unfoldable pub get_cursor : Console → ℕ × ℕ
get_cursor c = (c.row, c.col)

unfoldable pub hide_cursor : Console → Console
unfolding update_cursor
hide_cursor c = if not c.is_visible then c else update_cursor (record c { is_visible = false })

unfoldable pub show_cursor : Console → Console
unfolding update_cursor
show_cursor c = if c.is_visible then c else update_cursor (record c { is_visible = true })

-- Puts a character and a colour at a position counted in cells.
abbrev pub put_cell : ℕ → ℕ → ℕ → (ℕ → ℕ) → ℕ → ℕ
put_cell cell ch color video = update (update video (2 * cell) ch) (2 * cell + 1) color

-- The inner loop of `clear_console`: `n` rounds from column `j` of row `i`.
pub clear_row : ℕ → ℕ → ℕ → ℕ → (ℕ → ℕ) → ℕ → ℕ
clear_row zero i j color video = video
clear_row (suc n) i j color video =
    clear_row n i (j + 1) color (put_cell (i * width + j) 0 (color % 2 ^ 8) video)

-- The outer loop: `n` rounds from row `i`.
pub clear_rows : ℕ → ℕ → ℕ → (ℕ → ℕ) → ℕ → ℕ
clear_rows zero i color video = video
clear_rows (suc n) i color video = clear_rows n (i + 1) color (clear_row width i 0 color video)

unfoldable pub clear_console : Console → Console
unfolding update_cursor
clear_console c =
    update_cursor (record c { row = 0; col = 0; video = clear_rows height 0 c.color c.video })

unfoldable pub draw_char : ℕ → ℕ → ℕ → ℕ → Console → Console
draw_char row col ch color c =
    if negative row || leb height row
    then c
    else if negative col || leb width col
    then c
    else if negative color || ltb 0xff color
    then c
    else record c { video = put_cell (row * width + col) (ch % 2 ^ 8) color c.video }

unfoldable pub get_char : ℕ → ℕ → Console → ℕ
get_char row col c =
    if negative row || leb height row
    then 0
    else if negative col || leb width col
    then 0
    else c.video (2 * (row * width + col))

unfoldable pub cursor_back : Console → Console
cursor_back c =
    if ltb 0 c.col
    then record c { col = c.col - 1 }
    else if c.row == 0
    then c
    else record c { col = width - 1; row = c.row - 1 }

-- `myCursor.row = myCursor.row ++` assigns twice with no order between, so C leaves its result
-- open: `reading` is what the compiler makes of it.
unfoldable pub cursor_next : (ℕ → ℕ) → Console → Console
cursor_next reading c =
    if ltb c.col (width - 1)
    then record c { col = c.col + 1 }
    else record c { col = 0; row = reading c.row }

unfoldable pub is_screen_full : Console → Bool
is_screen_full c = if ltb c.row height then false else if ltb 0 c.col then true else c.is_visible

-- One round of the loops of `scroll_up`: row `i`, column `j`.
abbrev pub scroll_cell : ℕ → ℕ → ℕ → (ℕ → ℕ) → ℕ → ℕ
scroll_cell i j color video =
    let cur = i * width + j in
    if i == height - 1
    then put_cell cur 0 (color % 2 ^ 8) video
    else let up = update video (2 * cur) (video (2 * cur + 2 * width)) in
      update up (2 * cur + 1) (up (2 * cur + 2 * width + 1))

pub scroll_row : ℕ → ℕ → ℕ → ℕ → (ℕ → ℕ) → ℕ → ℕ
scroll_row zero i j color video = video
scroll_row (suc n) i j color video = scroll_row n i (j + 1) color (scroll_cell i j color video)

pub scroll_rows : ℕ → ℕ → ℕ → (ℕ → ℕ) → ℕ → ℕ
scroll_rows zero i color video = video
scroll_rows (suc n) i color video = scroll_rows n (i + 1) color (scroll_row width i 0 color video)

unfoldable pub scroll_up : Console → Console
scroll_up c = record c { row = c.row - 1; video = scroll_rows height 0 c.color c.video }

-- The position of the cursor in video memory, a `uint16_t`.
abbrev pub cell_of : Console → ℕ
cell_of c = (c.row * width + c.col) % 2 ^ 16

-- Writes a character at the cursor.
abbrev pub put_here : ℕ → Console → Console
put_here ch c = record c { video = put_cell (cell_of c) ch (c.color % 2 ^ 8) c.video }

-- The `switch` of `printbyte`, before the screen is scrolled.
unfoldable pub print_step : (ℕ → ℕ) → ℕ → Console → Console
unfolding cursor_back cursor_next
print_step reading ch c =
    if ch == 10
    then record c { row = c.row + 1; col = 0 }
    else if ch == 13
    then record c { col = 0 }
    else if ch == 8
    then put_here 0 (cursor_back c)
    else cursor_next reading (put_here ch c)

unfoldable pub printbyte : (ℕ → ℕ) → ℕ → Console → Console
unfolding is_screen_full
printbyte reading ch c =
    let c' = print_step reading ch c in if is_screen_full c' then scroll_up c' else c'

unfoldable pub putbyte : (ℕ → ℕ) → ℕ → Console → ℕ × Console
putbyte reading ch c = (0, update_cursor (printbyte reading ch c))

-- The loop of `putbytes`: `n` rounds from index `i`; it stops at a NUL.
unfoldable pub putbytes_loop : (ℕ → ℕ) → (ℕ → ℕ) → ℕ → ℕ → Console → Console
putbytes_loop reading s zero i c = c
putbytes_loop reading s (suc n) i c =
    let rest = putbytes_loop reading s n (i + 1) (printbyte reading (s i) c) in
    if s i == 0 then c else rest

unfoldable pub putbytes : (ℕ → ℕ) → (ℕ → ℕ) → ℕ → Console → Console
unfolding putbytes_loop
putbytes reading s len c =
    if len == 0 || negative len then c else update_cursor (putbytes_loop reading s len 0 c)
