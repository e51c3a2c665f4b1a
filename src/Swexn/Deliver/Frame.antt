-- ===== src/Swexn/Deliver/Frame.antt =====
-- The stack on which the handler begins.
use p.Base.{
  ℕ, zero, suc, ◌+◌, ◌-◌, ◌*◌, ◌^◌, ◌<◌, ◌≤◌, ◌≡◌, refl, ◌∙◌, ◌≢◌, false, some, arith,
  if◌then◌else◌, ◌==◌, ltb, leb, ◌||◌, true, update, ne→==-false, ==_refl,
}
use p.Swexn.{SwexnInfo}
use p.Swexn.Deliver.{Entered, copy_words, get_real_handler, ureg_words, minus}

-- The copy writes nothing below and nothing behind its range.
copy_words-off :
    (to : ℕ) (u : ℕ → ℕ) (n k a : ℕ) (m : ℕ → ℕ)
    → (ltb a (to + 4 * k) || leb (to + 4 * (k + n)) a) ≡ true
    → copy_words to u n k m a ≡ m a
unfolding copy_words
copy_words-off to u zero k a m out = refl
copy_words-off to u (suc n) k a m out =
    copy_words-off to u n (k + 1) a (update m (to + 4 * k) (u k)) (ground (arith, out))
    ∙ (let off : (a == to + 4 * k) ≡ false = ground (arith, out) in rw off refl)

copy_words-at :
    (to : ℕ) (u : ℕ → ℕ) (n k i : ℕ) (m : ℕ → ℕ)
    → i < n
    → copy_words to u n k m (to + 4 * (k + i)) ≡ u (k + i)
unfolding copy_words
copy_words-at to u zero k i m lt = absurd (omega arith)
copy_words-at to u (suc n) k zero m lt =
    let at : k + 0 ≡ k = omega arith in
    rw at (
      copy_words-off to u n (k + 1) (to + 4 * k) (update m (to + 4 * k) (u k)) (ground arith)
      ∙ (rw (==_refl (to + 4 * k)) refl))
copy_words-at to u (suc n) k (suc i) m lt =
    let at : k + suc i ≡ k + 1 + i = omega arith in
    rw at (copy_words-at to u n (k + 1) i (update m (to + 4 * k) (u k)) (omega arith))

-- The handler begins at `info.eip` as if called with `info.arg` and the address of a `ureg_t`,
-- with the space of a return address below its arguments.
pub record IsCalled (cr2 : ℕ) (ureg : ℕ → ℕ) (info : SwexnInfo) (memory : ℕ → ℕ) (e : Entered)
    : Type 0 where
  pub entry : e.eip ≡ info.eip
  pub top : e.esp + 92 ≡ info.esp3
  pub first_argument : e.memory (e.esp + 4) ≡ info.arg
  pub second_argument : e.memory (e.esp + 8) ≡ e.esp + 12
  pub registers :
      (k : ℕ) → k < 20 → e.memory (e.esp + 12 + 4 * k) ≡ (if k == 1 then cr2 else ureg k)
  pub others : (a : ℕ) → (leb a e.esp || leb info.esp3 a) ≡ true → e.memory a ≡ memory a
  pub removed : e.info.installed_flag ≡ 0

-- For a thread that has a handler, whose stack for it begins at 92 or above and below 2 ^ 32:
-- get_real_handler enters the handler's address 92 bytes below that, with the handler's
-- argument and the address of a ureg_t in the places of the two arguments of a call; the ureg_t
-- there holds the registers of the exception with cr2; no word outside of these 88 bytes
-- changes; and the thread has no handler any more.
pub get_real_handler-IsCalled :
    (cr2 : ℕ) (ureg : ℕ → ℕ) (info : SwexnInfo) (memory : ℕ → ℕ)
    → info.installed_flag ≢ 0
    → 92 ≤ info.esp3
    → info.esp3 < 2 ^ 32
    → (e : Entered) × (get_real_handler cr2 ureg info memory ≡ some e)
      × IsCalled cr2 ureg info memory e
unfolding get_real_handler
get_real_handler-IsCalled cr2 ureg info memory installed room small =
    let s = info.esp3 - 92 in
    let u = update ureg 1 cr2 in
    let e1 : minus info.esp3 80 ≡ s + 12 = omega arith in
    let e2 : minus (s + 12) 4 ≡ s + 8 = omega arith in
    let e3 : minus (s + 12) 8 ≡ s + 4 = omega arith in
    let e4 : minus (s + 12) 12 ≡ s = omega arith in
    let copied = copy_words (s + 12) u ureg_words 0 memory in
    let final = update (update copied (s + 8) (s + 12)) (s + 4) info.arg in
    let above : (a : ℕ) → (ltb a (s + 4) || leb (s + 12) a) ≡ true → final a ≡ copied a = λ a h.
      let off4 : (a == s + 4) ≡ false = ground (arith, h) in
      let off8 : (a == s + 8) ≡ false = ground (arith, h) in rw (off4, off8) refl in
    (
      record {
        eip = info.eip;
        esp = s;
        memory = final;
        info = record {
          esp3 = 0;
          eip = 0;
          arg = 0;
          newureg = 0;
          installed_flag = 0;
          eflags = u 17;
        };
      },
      rw (get_real_handler, ne→==-false info.installed_flag 0 installed, e1, e2, e3, e4) refl,
      record {
        entry = refl;
        top = omega arith;
        first_argument = rw (==_refl (s + 4)) refl;
        second_argument =
            let off : (s + 8 == s + 4) ≡ false = ground arith in rw (off, ==_refl (s + 8)) refl;
        registers = λ k lt.
            let at : 0 + k ≡ k = omega arith in
            above (s + 12 + 4 * k) (ground arith)
            ∙ (rw at at (copy_words-at (s + 12) u ureg_words 0 k memory lt));
        others = λ a out.
            above a (ground (arith, out))
            ∙ copy_words-off (s + 12) u ureg_words 0 a memory (ground (arith, out));
        removed = refl;
      },
    )
