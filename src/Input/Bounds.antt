-- ===== src/Input/Bounds.antt =====
-- The loop of `sys_readline` ends, and stays within the caller's buffer.
use p.Base.{
  ℕ, zero, suc, ◌+◌, ◌-◌, ◌<◌, ◌≤◌, ◌^◌, ◌%◌, ◌≡◌, refl, ◌∙◌, ◌⊎◌, inl, inr, ◌≢◌, true, false, some,
  ◌==◌, ltb, ne→==-false, arith, Bool-cases, update,
}
use p.Keyboard.{Ring, readchar, buf_len}
use p.Keyboard.Queue.{IsRing, count, readchar-IsRing}
use p.Kernel.{minus_one}
use p.Console.{negative}
use p.Input.{Terminal, Line, count_after, line_loop, read_line, set_interrupts}

readchar-count :
    (r : Ring) → IsRing r → ((readchar r).0 ≡ minus_one) ⊎ (count (readchar r).1 < count r)
unfolding readchar
readchar-count r v = elim (Bool-cases (r.start == r.tail)) [
  | inl e ↦ inl (rw e refl)
  | inr e ↦ inr (rw e (taken r.start r.tail v.start_in v.tail_in (λ h. ground (arith, h, e))))
]
  where
    taken :
        (s t : ℕ)
        → s < buf_len
        → t < buf_len
        → s ≢ t
        → (t + buf_len - (s + 1) % buf_len) % buf_len < (t + buf_len - s) % buf_len
    taken s t hs ht ne = elim (Bool-cases (ltb s t)) [ inl e ↦ ground arith | inr e ↦ ground arith ]

-- What the loop may do to a buffer of `len` bytes.
pub record Within (len : ℕ) (s s' : Line) : Type 0 where
  pub count_in : s'.count ≤ len
  pub outside : (a : ℕ) → len ≤ a → s'.buf a ≡ s.buf a

-- The line behind a character that ends the loop, with a byte `v` in its last place.
abbrev ended : Line → ℕ → Ring → ℕ → Line
ended s c ring v =
    let n = count_after c s.count in
    record {
      count = n;
      buf = update (update s.buf s.count (c % 2 ^ 8)) ((n + 2 ^ 32 - 1) % 2 ^ 32) v;
      ring = ring;
    }

ended-Within :
    (len : ℕ) (s : Line) (c : ℕ) (ring : Ring) (v : ℕ)
    → s.count < len
    → len < 2 ^ 31
    → 0 < count_after c s.count
    → count_after c s.count ≤ len
    → Within len s (ended s c ring v)
ended-Within len s c ring v inside small pos room = record {
  count_in = room;
  outside = λ a e. outside (count_after c s.count) pos room a e;
}
  where
    outside :
        (n : ℕ)
        → 0 < n
        → n ≤ len
        → (a : ℕ) → len ≤ a
        → update (update s.buf s.count (c % 2 ^ 8)) ((n + 2 ^ 32 - 1) % 2 ^ 32) v a ≡ s.buf a
    outside n pos room a e =
        let last : (n + 2 ^ 32 - 1) % 2 ^ 32 ≡ n - 1 = omega arith in
        rw (last, ne→==-false a (n - 1) (omega arith), ne→==-false a s.count (omega arith)) refl

count_after-room : (c m len : ℕ) → m < len → count_after c m ≢ len → count_after c m < len
count_after-room c m len inside ne = ground arith

-- One more round of the loop, for a character that does not end it.
abbrev kept : Line → ℕ → Ring → Line
kept s c ring = record {
  count = count_after c s.count;
  buf = update s.buf s.count (c % 2 ^ 8);
  ring = ring;
}

kept-Within :
    (len : ℕ) (s s' : Line) (c : ℕ) (ring : Ring)
    → s.count < len
    → Within len (kept s c ring) s'
    → Within len s s'
kept-Within len s s' c ring inside w = record {
  count_in = w.count_in;
  outside = λ a e. w.outside a e ∙ rw (ne→==-false a s.count (omega arith)) refl;
}

count_after_enter : (c m : ℕ) → (c == 10) ≡ true → count_after c m ≡ m + 1
count_after_enter c m e = ground arith

fewer_left : (a b fuel : ℕ) → a < b → b < suc fuel → a < fuel
fewer_left a b fuel h1 h2 = omega arith

readchar_took :
    (r : Ring) → IsRing r → ((readchar r).0 == minus_one) ≡ false → count (readchar r).1 < count r
readchar_took r v more = elim (readchar-count r v) [
  | inl e ↦ absurd (ground (arith, more, e))
  | inr h ↦ h
]

pub line_loop-Within :
    (fuel len : ℕ) (s : Line)
    → IsRing s.ring
    → count s.ring < fuel
    → s.count < len
    → len < 2 ^ 31
    → (s' : Line) × (line_loop fuel len s ≡ some s') × Within len s s'
unfolding line_loop
line_loop-Within zero len s v h inside small = elim h [ ]
line_loop-Within (suc fuel) len s v h inside small =
    let (c, ring) = readchar s.ring in
    let n = count_after c s.count in
    elim (Bool-cases (c == minus_one)) [
      | inl done ↦ (
        record s { ring = ring },
        rw done refl,
        record { count_in = omega arith; outside = λ a e. refl },
      )
      | inr more ↦ elim (Bool-cases (n == len)) [
        | inl full ↦
            let at : n ≡ len = ground arith in
            (
              ended s c ring 0,
              rw (more, full) refl,
              ended-Within len s c ring 0 inside small (omega arith) (omega arith),
            )
        | inr room ↦ elim (Bool-cases (c == 10)) [
          | inl enter ↦
              let longer = count_after_enter c s.count enter in
              (
                ended s c ring 10,
                rw (more, room, enter) refl,
                ended-Within len s c ring 10 inside small (omega (arith, longer))
                    (omega (arith, longer)),
              )
          | inr other ↦
              let below = count_after-room c s.count len inside (ground arith) in
              let fewer : count ring < fuel =
                fewer_left (count ring) (count s.ring) fuel (readchar_took s.ring v more) h in
              let (s', e, w) =
                line_loop-Within fuel len (kept s c ring) (readchar-IsRing s.ring v) fewer below
                  small in
              (s', rw (more, room, other) e, kept-Within len s s' c ring inside w)
        ]
      ]
    ]

count-bound : (r : Ring) → count r < buf_len
count-bound r = omega arith

-- For a ring whose indices are within the buffer and a length between 1 and 2 ^ 31 - 1, the
-- part of sys_readline behind its call of schedule ends, with interrupts enabled, returns no
-- more than the length, and changes no byte of the caller's buffer at or behind that length.
pub read_line-Within :
    (len : ℕ) (buf : ℕ → ℕ) (t : Terminal)
    → IsRing t.ring
    → 0 < len
    → len < 2 ^ 31
    → (n : ℕ) × (buf' : ℕ → ℕ) × (t' : Terminal) × (read_line len buf t ≡ some (n, buf', t'))
      × (n ≤ len)
      × ((a : ℕ) → len ≤ a → buf' a ≡ buf a)
      × (t'.kernel.interrupts ≡ true)
unfolding read_line
read_line-Within len buf t v pos small =
    let (s, e, w) =
      line_loop-Within buf_len len (record { count = 0; buf = buf; ring = t.ring }) v
        (count-bound t.ring) pos small in
    let signed : negative len ≡ false = ground arith in
    (
      s.count,
      s.buf,
      set_interrupts true
          (record t { ring = s.ring; total_num = (t.total_num + 2 ^ 32 - s.count) % 2 ^ 32 }),
      rw (signed, e) refl,
      w.count_in,
      w.outside,
      refl,
    )
