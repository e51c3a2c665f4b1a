-- ===== src/User/Autostack/Growth.antt =====
-- Which faults make the stack grow, and by which page.
use p.Base.{ℕ, ◌+◌, ◌*◌, ◌/◌, ◌%◌, ◌^◌, ◌<◌, ◌≤◌, ◌≡◌, Bool, true, some, arith}
use p.Frames.{page_size}
use p.User.Autostack.{
  Fault, resumed, excep_stack, wordsize, last_addr, swexn_cause_pagefault, handle_fault, myhandler,
}

-- The page at `addr` is that of a fault for which the stack may grow.
pub record Grows (single : Bool) (ureg : Fault) (addr : ℕ) : Type 0 where
  pub alone : single ≡ true
  pub page_fault : ureg.cause ≡ swexn_cause_pagefault
  pub not_present : ureg.error_code % 2 ≡ 0
  pub above_esp : ureg.esp ≤ ureg.cr2
  pub aligned : addr % page_size ≡ 0
  pub here : addr ≤ ureg.cr2
  pub within : ureg.cr2 < addr + page_size
  pub above_handler : excep_stack + wordsize ≤ addr

-- When myhandler returns to the registers of the fault, the program had one thread, the fault
-- was a page fault on a page that was not there, at an address not below esp, new_pages has
-- granted the page of this address, and the page lies above the page that the handler runs on.
pub myhandler-Grows :
    (new_pages : ℕ → ℕ → ℕ) (single : Bool) (ureg : Fault) (addr : ℕ)
    → myhandler new_pages single (some ureg) ≡ resumed addr
    → Grows single ureg addr × (new_pages addr page_size < 2 ^ 31)
unfolding myhandler handle_fault
myhandler-Grows new_pages single ureg addr e =
    let at : ureg.cr2 / page_size * page_size ≡ addr = ground arith in
    let above : last_addr ≤ ureg.cr2 = ground arith in
    (
      record {
        alone = ground arith;
        page_fault = ground arith;
        not_present = ground arith;
        above_esp = ground arith;
        aligned = omega (arith, at);
        here = omega (arith, at);
        within = omega (arith, at);
        above_handler = omega (arith, at, above);
      },
      ground (arith, at),
    )

-- A push or a call that finds no page faults below esp: the thread vanishes.
push_vanishes :
    (new_pages : ℕ → ℕ → ℕ) (ureg : Fault) (addr : ℕ)
    → ureg.cr2 + 4 ≡ ureg.esp
    → (myhandler new_pages true (some ureg) ≡ resumed addr)
    → ⊥
push_vanishes new_pages ureg addr push e =
    let (g, granted) = myhandler-Grows new_pages true ureg addr e in
    absurd (omega (arith, g.above_esp, push))
