-- ===== src/Console/Bounds.antt =====
-- Where the cursor stands after printing, and which bytes of memory are written.
use p.Base.{
  ℕ, zero, suc, ◌+◌, ◌<◌, ◌≤◌, ◌≡◌, refl, ◌∙◌, ◌⊎◌, true, false, arith, ◌==◌, Bool-cases, inl, inr,
}
use p.Console.{
  Console, width, height, screen_bytes, print_step, scroll_up, printbyte, putbytes_loop, putbytes,
  update_cursor,
}
use p.Console.Cells.{scroll_up-scrolled}

-- What C leaves open about `row = row ++`: the new value is the old one, or one more.
abbrev pub IsReading : (ℕ → ℕ) → Type 0
IsReading reading = (r : ℕ) → (reading r ≡ r) ⊎ (reading r ≡ r + 1)

-- The cursor is shown and stands on the screen.
pub record OnScreen (c : Console) : Type 0 where
  pub row_in : c.row < height
  pub col_in : c.col < width
  pub shown : c.is_visible ≡ true

module _ (reading : ℕ → ℕ) (is : IsReading reading) where
  pub printbyte-OnScreen : (ch : ℕ) (c : Console) → OnScreen c → OnScreen (printbyte reading ch c)
  unfolding printbyte print_step scroll_up
  printbyte-OnScreen ch c v = ground (arith, is c.row)

  print_step-outside :
      (ch : ℕ) (c : Console) (a : ℕ)
      → OnScreen c
      → screen_bytes ≤ a
      → (print_step reading ch c).video a ≡ c.video a
  unfolding print_step
  print_step-outside ch c a v h = ground arith

  -- Printing writes to no byte behind the screen's.
  printbyte-outside :
      (ch : ℕ) (c : Console) (a : ℕ)
      → OnScreen c
      → screen_bytes ≤ a
      → (printbyte reading ch c).video a ≡ c.video a
  unfolding printbyte
  printbyte-outside ch c a v h =
      ground (arith, print_step-outside ch c a v h, scroll_up-scrolled (print_step reading ch c) a)

  loop-OnScreen :
      (s : ℕ → ℕ) (n i : ℕ) (c : Console) → OnScreen c → OnScreen (putbytes_loop reading s n i c)
  unfolding putbytes_loop
  loop-OnScreen s zero i c v = v
  loop-OnScreen s (suc n) i c v = elim (Bool-cases (s i == 0)) [
    | inl e ↦ rw e v
    | inr e ↦
        rw e (loop-OnScreen s n (i + 1) (printbyte reading (s i) c) (printbyte-OnScreen (s i) c v))
  ]

  loop-outside :
      (s : ℕ → ℕ) (n i : ℕ) (c : Console) (a : ℕ)
      → OnScreen c
      → screen_bytes ≤ a
      → (putbytes_loop reading s n i c).video a ≡ c.video a
  unfolding putbytes_loop
  loop-outside s zero i c a v h = refl
  loop-outside s (suc n) i c a v h = elim (Bool-cases (s i == 0)) [
    | inl e ↦ rw e refl
    | inr e ↦ rw e (
        loop-outside s n (i + 1) (printbyte reading (s i) c) a (printbyte-OnScreen (s i) c v) h
        ∙ printbyte-outside (s i) c a v h)
  ]

  update_cursor-OnScreen : (c : Console) → OnScreen c → OnScreen (update_cursor c)
  unfolding update_cursor
  update_cursor-OnScreen c v = ground arith

  -- For either reading of the undefined `row = row ++`, putbytes leaves a visible cursor that
  -- stands on the screen visible and on the screen.
  pub putbytes-OnScreen :
      (s : ℕ → ℕ) (len : ℕ) (c : Console) → OnScreen c → OnScreen (putbytes reading s len c)
  unfolding putbytes
  putbytes-OnScreen s len c v =
      ground (
        arith,
        update_cursor-OnScreen (putbytes_loop reading s len 0 c) (loop-OnScreen s len 0 c v),
      )

  update_cursor-video : (c : Console) (a : ℕ) → (update_cursor c).video a ≡ c.video a
  unfolding update_cursor
  update_cursor-video c a = ground arith

  -- For either reading of the undefined `row = row ++`, putbytes with a visible cursor on the
  -- screen changes no byte behind the 4000 bytes of the screen.
  putbytes-outside :
      (s : ℕ → ℕ) (len : ℕ) (c : Console) (a : ℕ)
      → OnScreen c
      → screen_bytes ≤ a
      → (putbytes reading s len c).video a ≡ c.video a
  unfolding putbytes
  putbytes-outside s len c a v h =
      ground (
        arith,
        update_cursor-video (putbytes_loop reading s len 0 c) a,
        loop-outside s len 0 c a v h,
      )

-- With the cursor hidden a newline never scrolls.
newline_hidden :
    (reading : ℕ → ℕ) (c : Console)
    → c.is_visible ≡ false
    → ((printbyte reading 10 c).row ≡ c.row + 1) × ((printbyte reading 10 c).is_visible ≡ false)
unfolding printbyte print_step
newline_hidden reading c h = ground arith

-- With the cursor hidden, n newlines move its row down by n, however far that is past the last
-- row.
hidden_newlines :
    (reading s : ℕ → ℕ) (n i : ℕ) (c : Console)
    → c.is_visible ≡ false
    → ((k : ℕ) → s k ≡ 10)
    → (putbytes_loop reading s n i c).row ≡ c.row + n
unfolding putbytes_loop
hidden_newlines reading s zero i c h all = omega arith
hidden_newlines reading s (suc n) i c h all =
    let step = newline_hidden reading c h in
    rw (all i)
      (hidden_newlines reading s n (i + 1) (printbyte reading 10 c) step.1 all ∙ omega arith)
