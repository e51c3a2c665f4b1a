-- ===== src/Swexn/Accept.antt =====
-- What holds of the registers that `swexn` accepts.
use p.Base.{ℕ, ◌<◌, ◌≡◌, refl, ◌≢◌, ◌⊎◌, inl, inr, true, arith, has, ◌==◌, ◌||◌, Bool-cases}
use p.Paging.{minus_one}
use p.Swexn.{NewUreg, SwexnInfo, causes, user_cs, user_ds, is_valid_newureg, sys_swexn}

-- Registers of a thread in user mode that point into no kernel memory.
pub record IsUser (esp0 : ℕ) (r : NewUreg) : Type 0 where
  pub cause : has r.cause causes ≡ true
  pub code : r.cs ≡ user_cs
  pub data_segment : r.ds ≡ user_ds
  pub frame : esp0 < r.ebp
  pub stack : esp0 < r.esp
  pub next : esp0 < r.eip

valid-IsUser :
    (esp0 flags newureg : ℕ) (r : NewUreg)
    → newureg ≢ 0
    → is_valid_newureg esp0 flags newureg r ≡ true
    → IsUser esp0 r
unfolding is_valid_newureg
valid-IsUser esp0 flags newureg r ne v = record {
  cause = ground (arith, ne, v);
  code = ground (arith, ne, v);
  data_segment = ground (arith, ne, v);
  frame = ground (arith, ne, v);
  stack = ground (arith, ne, v);
  next = ground (arith, ne, v);
}

-- No handler is installed, or one with a stack and an address.
abbrev pub IsUsable : SwexnInfo → Type 0
IsUsable info = (info.installed_flag ≡ 0) ⊎ ((info.esp3 ≢ 0) × (info.eip ≢ 0))

registered-IsUsable :
    (esp0 esp3 eip arg newureg : ℕ) (r : NewUreg) (info : SwexnInfo)
    → IsUsable info
    → IsUsable (sys_swexn esp0 esp3 eip arg newureg r info).1
unfolding sys_swexn
registered-IsUsable esp0 esp3 eip arg newureg r info ok =
    elim (Bool-cases (is_valid_newureg esp0 info.eflags newureg r)) [
      | inr bad ↦ rw bad ok
      | inl good ↦ elim (Bool-cases ((esp3 == 0) || (eip == 0))) [
        | inl none ↦ rw (good, none) (inl refl)
        | inr some ↦
            rw (good, some) (inr (λ e. ground (arith, e, some), λ e. ground (arith, e, some)))
      ]
    ]

-- When the thread has no handler installed or one with a stack and an address, the same holds
-- behind sys_swexn; and either the call returns -1 and changes nothing, or it returns 0 and the
-- registers given to it are NULL or have an accepted cause, the user's code and data segments,
-- and ebp, esp and eip above the top of the kernel stack.
pub sys_swexn-Safe :
    (esp0 esp3 eip arg newureg : ℕ) (r : NewUreg) (info : SwexnInfo)
    → IsUsable info
    → IsUsable (sys_swexn esp0 esp3 eip arg newureg r info).1
      × ((sys_swexn esp0 esp3 eip arg newureg r info ≡ (minus_one, info))
          ⊎ (((sys_swexn esp0 esp3 eip arg newureg r info).0 ≡ 0)
              × ((newureg ≡ 0) ⊎ IsUser esp0 r)))
unfolding sys_swexn
sys_swexn-Safe esp0 esp3 eip arg newureg r info ok =
    let usable = registered-IsUsable esp0 esp3 eip arg newureg r info ok in
    (
      usable,
      elim (Bool-cases (is_valid_newureg esp0 info.eflags newureg r)) [
        | inr bad ↦ inl (rw bad refl)
        | inl good ↦ inr (
          rw good (ground arith),
          elim (Bool-cases (newureg == 0)) [
            | inl none ↦ inl (ground (arith, none))
            | inr some ↦
                inr (valid-IsUser esp0 info.eflags newureg r (λ e. ground (arith, e, some)) good)
          ],
        )
      ],
    )
