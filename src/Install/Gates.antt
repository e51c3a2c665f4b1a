-- ===== src/Install/Gates.antt =====
-- What the processor finds in the table behind `handler_install`.
use p.Base.{
  ℕ, ◌+◌, ◌*◌, ◌/◌, ◌%◌, ◌^◌, ◌<◌, ◌≡◌, refl, ◌∙◌, false, List, [], ◌∷◌, ◌++◌, arith, has, Distinct,
  ◌==◌,
}
use p.Install.{
  Wrapper, page_fault, timer, keyboard, idt_entry, kernel_cs, Idt, install, install_handler,
  install_interrupt, system_calls, Machine, handler_install,
}

-- A gate as the processor reads it.
pub record Gate : Type 0 where
  pub offset : ℕ
  pub selector : ℕ
  pub attributes : ℕ

abbrev pub gate_at : Idt → ℕ → Gate
gate_at idt e = record {
  offset = idt (e * 2 + 1) / 2 ^ 16 * 2 ^ 16 + idt (e * 2) % 2 ^ 16;
  selector = idt (e * 2) / 2 ^ 16;
  attributes = idt (e * 2 + 1) % 2 ^ 16;
}

-- Present; an interrupt gate of privilege 0 for a device, a trap gate of privilege 3 for the rest.
abbrev pub attributes_of : Wrapper → ℕ
attributes_of timer = 0x8e00
attributes_of keyboard = 0x8e00
attributes_of _ = 0xef00

abbrev pub wrappers : List Wrapper
wrappers = page_fault ∷ timer ∷ keyboard ∷ system_calls

abbrev pub entries : List Wrapper → List ℕ
entries [] = []
entries (h ∷ hs) = idt_entry h ∷ entries hs

abbrev install_all : (Wrapper → ℕ) → List Wrapper → Idt → Idt
install_all address [] idt = idt
install_all address (h ∷ hs) idt =
    install_all address hs (install (attributes_of h) (idt_entry h) (address h) idt)

install-other : (r e a w : ℕ) (idt : Idt) → (w / 2 == e) ≡ false → install r e a idt w ≡ idt w
install-other r e a w idt h = ground arith

install_all-other :
    (address : Wrapper → ℕ) (hs : List Wrapper) (idt : Idt) (w : ℕ)
    → has (w / 2) (entries hs) ≡ false
    → install_all address hs idt w ≡ idt w
install_all-other address [] idt w h = refl
install_all-other address (x ∷ hs) idt w h =
    install_all-other address hs (install (attributes_of x) (idt_entry x) (address x) idt) w
      (ground (arith, h))
    ∙ install-other (attributes_of x) (idt_entry x) (address x) w idt (ground (arith, h))

-- The gate that a handler should have.
abbrev pub gate_of : (Wrapper → ℕ) → Wrapper → Gate
gate_of address h = record {
  offset = address h;
  selector = kernel_cs;
  attributes = attributes_of h;
}

Gate-eq :
    (a b c a' b' c' : ℕ)
    → a ≡ a'
    → b ≡ b'
    → c ≡ c'
    → ◌≡◌ {A = Gate}
        (record { offset = a; selector = b; attributes = c })
        (record { offset = a'; selector = b'; attributes = c' })
Gate-eq a b c a' b' c' x y z = rw (x, y, z) refl

attributes_small : (h : Wrapper) → attributes_of h < 2 ^ 16
attributes_small timer = omega arith
attributes_small keyboard = omega arith
attributes_small _ = omega arith

install_all-gate :
    (address : Wrapper → ℕ) (xs : List Wrapper) (h : Wrapper) (ys : List Wrapper) (idt : Idt)
    → address h < 2 ^ 32
    → Distinct (entries (xs ++ (h ∷ ys)))
    → gate_at (install_all address (xs ++ (h ∷ ys)) idt) (idt_entry h) ≡ gate_of address h
install_all-gate address (x ∷ xs) h ys idt small d =
    install_all-gate address xs h ys (install (attributes_of x) (idt_entry x) (address x) idt) small
      d.1
install_all-gate address [] h ys idt small d =
    let e = idt_entry h in
    let after = install (attributes_of h) e (address h) idt in
    let s = attributes_small h in
    let even : e * 2 / 2 ≡ e = omega arith in
    let odd : (e * 2 + 1) / 2 ≡ e = omega arith in
    let low : install_all address ys after (e * 2) ≡ kernel_cs * 2 ^ 16 + address h % 2 ^ 16 =
      install_all-other address ys after (e * 2) (rw even d.0) ∙ ground arith in
    let high : install_all address ys after (e * 2 + 1)
        ≡ address h / 2 ^ 16 * 2 ^ 16 + attributes_of h =
      install_all-other address ys after (e * 2 + 1) (rw odd d.0) ∙ ground arith in
    rw (low, high)
      (Gate-eq
        ((address h / 2 ^ 16 * 2 ^ 16 + attributes_of h) / 2 ^ 16 * 2 ^ 16
          + (kernel_cs * 2 ^ 16 + address h % 2 ^ 16) % 2 ^ 16)
        ((kernel_cs * 2 ^ 16 + address h % 2 ^ 16) / 2 ^ 16)
        ((address h / 2 ^ 16 * 2 ^ 16 + attributes_of h) % 2 ^ 16) (address h) kernel_cs
        (attributes_of h) (omega (arith, s, small)) (omega arith) (omega (arith, s)))

entries-Distinct : Distinct (entries wrappers)
entries-Distinct = (
  refl,
  (
    refl,
    (
      refl,
      (
        refl,
        (
          refl,
          (
            refl,
            (
              refl,
              (
                refl,
                (
                  refl,
                  (
                    refl,
                    (
                      refl,
                      (
                        refl,
                        (
                          refl,
                          (
                            refl,
                            (
                              refl,
                              (
                                refl,
                                (
                                  refl,
                                  (
                                    refl,
                                    (refl, (refl, (refl, (refl, (refl, (refl, (refl, tt))))))),
                                  ),
                                ),
                              ),
                            ),
                          ),
                        ),
                      ),
                    ),
                  ),
                ),
              ),
            ),
          ),
        ),
      ),
    ),
  ),
)

split-gate :
    (address : Wrapper → ℕ) (hs xs : List Wrapper) (h : Wrapper) (ys : List Wrapper) (idt : Idt)
    → address h < 2 ^ 32
    → Distinct (entries hs)
    → hs ≡ xs ++ (h ∷ ys)
    → gate_at (install_all address hs idt) (idt_entry h) ≡ gate_of address h
split-gate address hs xs h ys idt small d split =
    rw split (install_all-gate address xs h ys idt small (rw split at d))

install-all :
    (address : Wrapper → ℕ) (tickback : ℕ) (s : Machine)
    → (handler_install address tickback s).1.idt ≡ install_all address wrappers s.idt
unfolding handler_install install_handler install_interrupt
install-all address tickback s = refl

-- For handler addresses below 2 ^ 32: behind handler_install the processor reads, at the table
-- entry of each handler, the address of that handler, the kernel's code segment, and the
-- attributes of an interrupt gate of privilege 0 for the timer and the keyboard and of a trap
-- gate of privilege 3 for all others; every word of the table that belongs to none of these
-- entries is as before.
pub handler_install-Installed :
    (address : Wrapper → ℕ) (tickback : ℕ) (s : Machine) (xs : List Wrapper) (h : Wrapper)
    (ys : List Wrapper)
    → ((a : Wrapper) → address a < 2 ^ 32)
    → wrappers ≡ xs ++ (h ∷ ys)
    → (gate_at (handler_install address tickback s).1.idt (idt_entry h) ≡ gate_of address h)
      × ((w : ℕ)
          → has (w / 2) (entries wrappers) ≡ false
          → (handler_install address tickback s).1.idt w ≡ s.idt w)
handler_install-Installed address tickback s xs h ys small split =
    rw (install-all address tickback s) (
      split-gate address wrappers xs h ys s.idt (small h) entries-Distinct split,
      λ w out. install_all-other address wrappers s.idt w out,
    )
