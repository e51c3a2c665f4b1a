-- ===== src/Examples/Booting.antt =====
-- The table of interrupts with made-up addresses of the entry points.
use p.Base.{ℕ, ◌+◌, ◌≡◌, refl, false, [], ◌∷◌, arith, has, ◌/◌, ◌%◌}
use p.Keyboard.{setup_keyboard}
use p.Install.{
  Wrapper, page_fault, timer, keyboard, idt_entry, system_calls, Machine, handler_install,
}
use p.Install.Gates.{gate_at, gate_of, wrappers, entries, handler_install-Installed}

abbrev address : Wrapper → ℕ
address h = 0x00123400 + idt_entry h % 256

abbrev booting : Machine
booting = record { idt = λ w. 0; ports = []; callback = 0; ring = setup_keyboard }

handler_install-Installed_example :
    (gate_at (handler_install address 0x00100000 booting).1.idt 0x21 ≡ gate_of address keyboard)
    × ((w : ℕ)
        → has (w / 2) (entries wrappers) ≡ false
        → (handler_install address 0x00100000 booting).1.idt w ≡ 0)
handler_install-Installed_example =
    handler_install-Installed address 0x00100000 booting (page_fault ∷ timer ∷ []) keyboard
      system_calls (λ h. omega arith) refl
