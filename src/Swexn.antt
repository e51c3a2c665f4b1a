-- ===== src/Swexn.antt =====
-- kern/thread/sys_thread_management.c: the call `swexn`, which registers a handler for exceptions.
pub mod Accept
pub mod Deliver
use Prim.Native.Nat.{bit_or, bit_xor}
use p.Base.{ℕ, Bool, true, false, not, ◌&&◌, ◌||◌, List, [], ◌∷◌, if◌then◌else◌, ◌==◌, leb, has}
use p.Paging.{minus_one}

-- The fields of a `ureg_t` that are tested.
pub record NewUreg : Type 0 where
  pub cause : ℕ
  pub ds : ℕ
  pub ebp : ℕ
  pub eip : ℕ
  pub cs : ℕ
  pub eflags : ℕ
  pub esp : ℕ

-- A `swexninfo`; a pointer is an address, and 0 is NULL.
pub record SwexnInfo : Type 0 where
  pub esp3 : ℕ
  pub eip : ℕ
  pub arg : ℕ
  pub newureg : ℕ
  pub installed_flag : ℕ
  pub eflags : ℕ

-- The SWEXN_CAUSE_ constants that are accepted, in the order of the test.
abbrev pub causes : List ℕ
causes =
    0x00 ∷ 0x01 ∷ 0x03 ∷ 0x04 ∷ 0x05 ∷ 0x06 ∷ 0x07 ∷ 0x0B ∷ 0x0D ∷ 0x0E ∷ 0x10 ∷ 0x11 ∷ 0x13 ∷ []

abbrev pub user_cs : ℕ
user_cs = 0x23

abbrev pub user_ds : ℕ
user_ds = 0x2b

-- ALLOWED_BITS: EFL_CF, PF, AF, ZF, SF, DF, OF and AC.
abbrev pub allowed_bits : ℕ
allowed_bits = 0x40CD5

-- `r` is what the pointer `newureg` points to, `esp0` the top of the kernel stack, and
-- `original_eflags` the flags in the thread's `swexn_info`.
unfoldable pub is_valid_newureg : ℕ → ℕ → ℕ → NewUreg → Bool
is_valid_newureg esp0 original_eflags newureg r =
    let changedbit = bit_xor r.eflags original_eflags in
    let mask = bit_xor changedbit allowed_bits in
    if newureg == 0
    then true
    else if not (has r.cause causes)
    then false
    else if not (r.cs == user_cs)
    then false
    else if not (r.ds == user_ds)
    then false
    else if leb r.ebp esp0
    then false
    else if leb r.esp esp0
    then false
    else if leb r.eip esp0
    then false
    else if not (bit_or changedbit mask == allowed_bits)
    then false
    else true

abbrev pub no_handler : SwexnInfo
no_handler = record { esp3 = 0; eip = 0; arg = 0; newureg = 0; installed_flag = 0; eflags = 0 }

unfoldable pub sys_swexn : ℕ → ℕ → ℕ → ℕ → ℕ → NewUreg → SwexnInfo → ℕ × SwexnInfo
sys_swexn esp0 esp3 eip arg newureg r info =
    if not (is_valid_newureg esp0 info.eflags newureg r)
    then (minus_one, info)
    else if (esp3 == 0) || (eip == 0)
    then (0, no_handler)
    else (
      0,
      record info { esp3 = esp3; eip = eip; arg = arg; newureg = newureg; installed_flag = 1 },
    )
