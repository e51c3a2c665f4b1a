-- ===== src/Examples/Handling.antt =====
-- A thread that registers a handler for exceptions, and one whose handler is called.
use p.Base.{ℕ, ◌≡◌, ◌⊎◌, inl, refl, some, arith}
use p.Paging.{minus_one}
use p.Swexn.{SwexnInfo, NewUreg, no_handler, sys_swexn}
use p.Swexn.Deliver.{Entered, get_real_handler}
use p.Swexn.Deliver.Frame.{IsCalled, get_real_handler-IsCalled}
use p.Swexn.Accept.{IsUser, IsUsable, sys_swexn-Safe}

abbrev registers : NewUreg
registers = record {
  cause = 14;
  ds = 0x2b;
  ebp = 0x0100f000;
  eip = 0x01000100;
  cs = 0x23;
  eflags = 1;
  esp = 0x0100e000;
}

sys_swexn-Safe_example :
    IsUsable (sys_swexn 0x00900000 0x0100d000 0x01000200 0 0x01002000 registers no_handler).1
    × ((sys_swexn 0x00900000 0x0100d000 0x01000200 0 0x01002000 registers no_handler
          ≡ (minus_one, no_handler))
        ⊎ (((sys_swexn 0x00900000 0x0100d000 0x01000200 0 0x01002000 registers no_handler).0 ≡ 0)
            × ((◌≡◌ {A = ℕ} 0x01002000 0) ⊎ IsUser 0x00900000 registers)))
sys_swexn-Safe_example =
    sys_swexn-Safe 0x00900000 0x0100d000 0x01000200 0 0x01002000 registers no_handler (inl refl)

-- A thread whose handler stands at 0x01000100 and has its stack below 0x01F00000.
abbrev handler : SwexnInfo
handler = record {
  esp3 = 0x01F00000;
  eip = 0x01000100;
  arg = 7;
  newureg = 0;
  installed_flag = 1;
  eflags = 512;
}

get_real_handler-IsCalled_example :
    (e : Entered) × (get_real_handler 5 (λ k. k) handler (λ a. 0) ≡ some e)
    × IsCalled 5 (λ k. k) handler (λ a. 0) e
get_real_handler-IsCalled_example =
    get_real_handler-IsCalled 5 (λ k. k) handler (λ a. 0) (omega arith) (omega arith) (omega arith)
