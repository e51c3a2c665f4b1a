-- ===== src/Keyboard/Queue.antt =====
-- The ring refines a queue of at most 511 characters that drops its oldest one when it is full.
use p.Base.{
  ℕ, zero, suc, ◌+◌, ◌-◌, ◌%◌, ◌<◌, ◌≡◌, refl, ◌∙◌, ap, true, List, [], ◌∷◌, ◌++◌, arith, false,
  sym, Bool-cases, inl, inr, update_self, if◌then◌else◌, ◌==◌, update, length,
}
use mathlib.Core.Path.{ap₂}
use p.Keyboard.{Ring, buf_len, minus_one, char_to_int, enqueue, dequeue, readchar}

pub record IsRing (r : Ring) : Type 0 where
  pub start_in : r.start < buf_len
  pub tail_in : r.tail < buf_len

-- The `n` characters from index `s` on, going round at the end of the buffer.
abbrev pub window : (ℕ → ℕ) → ℕ → ℕ → List ℕ
window b s zero = []
window b s (suc n) = b s ∷ window b ((s + 1) % buf_len) n

abbrev pub count : Ring → ℕ
count r = (r.tail + buf_len - r.start) % buf_len

-- The characters that wait, oldest first.
abbrev pub contents : Ring → List ℕ
contents r = window r.s_queue r.start (count r)

-- The specification: what a full queue does with one more character, and what a reader gets.
abbrev pub put_newest : List ℕ → ℕ → List ℕ
put_newest [] c = c ∷ []
put_newest (x ∷ xs) c =
    if length (x ∷ xs) == buf_len - 1 then xs ++ (c ∷ []) else (x ∷ xs) ++ (c ∷ [])

abbrev pub take_oldest : List ℕ → ℕ × List ℕ
take_oldest [] = (minus_one, [])
take_oldest (x ∷ xs) = (char_to_int x, xs)

length-window : (b : ℕ → ℕ) (s n : ℕ) → length (window b s n) ≡ n
length-window b s zero = refl
length-window b s (suc n) = ap suc (length-window b ((s + 1) % buf_len) n)

-- A write ahead of the window does not change it.
window-ahead :
    (b : ℕ → ℕ) (s n k i c : ℕ)
    → s < buf_len
    → k < buf_len
    → n < suc k
    → i ≡ (s + k) % buf_len
    → window (update b i c) s n ≡ window b s n
window-ahead b s zero k i c hs hk h e = refl
window-ahead b s (suc n) zero i c hs hk h e = absurd (omega arith)
window-ahead b s (suc n) (suc k) i c hs hk h e =
    let other : (s == i) ≡ false = ground arith in
    rw other (
      ap (λ t. b s ∷ t)
        (window-ahead b ((s + 1) % buf_len) n k i c (omega arith) (omega arith) (omega arith)
          (omega arith)))

window-snoc :
    (b : ℕ → ℕ) (s n : ℕ)
    → s < buf_len
    → window b s (suc n) ≡ window b s n ++ (b ((s + n) % buf_len) ∷ [])
window-snoc b s zero hs = ap (λ i. b i ∷ []) (omega arith)
window-snoc b s (suc n) hs =
    let shift : ((s + 1) % buf_len + n) % buf_len ≡ (s + suc n) % buf_len = omega arith in
    ap (λ t. b s ∷ t)
      (window-snoc b ((s + 1) % buf_len) n (omega arith)
        ∙ ap (λ i. window b ((s + 1) % buf_len) n ++ (b i ∷ [])) shift)

-- A write just past the window makes it longer by one.
window-put :
    (b : ℕ → ℕ) (s n i c : ℕ)
    → s < buf_len
    → n < buf_len
    → i ≡ (s + n) % buf_len
    → window (update b i c) s (suc n) ≡ window b s n ++ (c ∷ [])
window-put b s n i c hs hn e =
    window-snoc (update b i c) s n hs
    ∙ ap₂ (λ t v. t ++ (v ∷ [])) (window-ahead b s n n i c hs hn (omega arith) e)
        (rw (← e) (update_self b i c))

put_newest_full :
    (x : ℕ) (xs : List ℕ) (c : ℕ) → length xs + 2 ≡ buf_len → put_newest (x ∷ xs) c ≡ xs ++ (c ∷ [])
put_newest_full x xs c h = ground arith

put_newest_room : (xs : List ℕ) (c : ℕ) → length xs + 1 < buf_len → put_newest xs c ≡ xs ++ (c ∷ [])
put_newest_room [] c h = refl
put_newest_room (x ∷ xs) c h = ground arith

-- The window after a write, at the count `n` before it.
module _ (b : ℕ → ℕ) (s t c : ℕ) (hs : s < buf_len) (ht : t < buf_len) where
  abbrev tail' : ℕ
  tail' = (t + 1) % buf_len

  enqueue_room :
      (n n' : ℕ)
      → (t + buf_len - s) % buf_len ≡ n
      → (tail' + buf_len - s) % buf_len ≡ n'
      → n + 1 < buf_len
      → window (update b t c) s n' ≡ put_newest (window b s n) c
  enqueue_room n n' e e' h =
      let more : n' ≡ suc n = omega arith in
      ap (window (update b t c) s) more
      ∙ window-put b s n t c hs (omega arith) (omega arith)
      ∙ sym (put_newest_room (window b s n) c (rw (length-window b s n) h))

  enqueue_full :
      (n n' : ℕ)
      → (t + buf_len - s) % buf_len ≡ suc n
      → n + 2 ≡ buf_len
      → (tail' + buf_len - (s + 1) % buf_len) % buf_len ≡ n'
      → window (update b t c) ((s + 1) % buf_len) n' ≡ put_newest (window b s (suc n)) c
  enqueue_full n n' e h e' =
      let same : n' ≡ suc n = omega arith in
      ap (window (update b t c) ((s + 1) % buf_len)) same
      ∙ window-put b ((s + 1) % buf_len) n t c (omega arith) (omega arith) (omega arith)
      ∙ sym (
          put_newest_full (b s) (window b ((s + 1) % buf_len) n) c
            (rw (length-window b ((s + 1) % buf_len) n) h))

  -- The same at a count that is not in the form `suc n`.
  enqueue_at_end :
      (n n' : ℕ)
      → (t + buf_len - s) % buf_len ≡ n
      → s ≡ tail'
      → (tail' + buf_len - (s + 1) % buf_len) % buf_len ≡ n'
      → window (update b t c) ((s + 1) % buf_len) n' ≡ put_newest (window b s n) c
  enqueue_at_end zero n' e at e' = absurd (omega arith)
  enqueue_at_end (suc n) n' e at e' = enqueue_full n n' e (omega arith) e'

pub enqueue-IsRing : (r : Ring) (c : ℕ) → IsRing r → IsRing (enqueue r c)
unfolding enqueue
enqueue-IsRing r c v = ground arith

-- For a ring whose indices are within the buffer, enqueue adds the character behind those that
-- wait, and drops the oldest one when 511 wait already.
pub enqueue_refines :
    (r : Ring) (c : ℕ) → IsRing r → contents (enqueue r c) ≡ put_newest (contents r) c
unfolding enqueue
enqueue_refines r c v = elim (Bool-cases (r.start == (r.tail + 1) % buf_len)) [
  | inl full ↦ rw full (
      enqueue_at_end r.s_queue r.start r.tail c v.start_in v.tail_in (count r) _ refl (ground arith)
        refl)
  | inr room ↦ rw room (
      enqueue_room r.s_queue r.start r.tail c v.start_in v.tail_in (count r) _ refl refl
        (ground arith))
]

pub dequeue-IsRing : (r : Ring) → IsRing r → IsRing (dequeue r).1
unfolding dequeue
dequeue-IsRing r v = ground arith

take_window :
    (b : ℕ → ℕ) (s t n : ℕ)
    → s < buf_len
    → t < buf_len
    → (s == t) ≡ false
    → (t + buf_len - s) % buf_len ≡ n
    → ◌≡◌ {A = ℕ × List ℕ}
        (
          char_to_int (b s),
          window b ((s + 1) % buf_len) ((t + buf_len - (s + 1) % buf_len) % buf_len),
        )
        (take_oldest (window b s n))
take_window b s t zero hs ht ne e = absurd (ground arith)
take_window b s t (suc n) hs ht ne e =
    ap (λ k. (char_to_int (b s), window b ((s + 1) % buf_len) k)) (omega arith)

empty_window :
    (b : ℕ → ℕ) (s t n : ℕ)
    → s < buf_len
    → (s == t) ≡ true
    → (t + buf_len - s) % buf_len ≡ n
    → ◌≡◌ {A = ℕ × List ℕ} (minus_one, window b s n) (take_oldest (window b s n))
empty_window b s t zero hs eq e = refl
empty_window b s t (suc n) hs eq e = absurd (ground arith)

-- For a ring whose indices are within the buffer, readchar returns -1 and leaves the queue
-- empty when no character waits, and otherwise takes the oldest one and returns it, sign-
-- extended.
pub readchar_refines :
    (r : Ring) → IsRing r → let (c, r') = readchar r in (c, contents r') ≡ take_oldest (contents r)
unfolding readchar
readchar_refines r v = elim (Bool-cases (r.start == r.tail)) [
  | inl e ↦ rw e (empty_window r.s_queue r.start r.tail (count r) v.start_in e refl)
  | inr e ↦ rw e (take_window r.s_queue r.start r.tail (count r) v.start_in v.tail_in e refl)
]

pub readchar-IsRing : (r : Ring) → IsRing r → IsRing (readchar r).1
unfolding readchar
readchar-IsRing r v = ground arith
