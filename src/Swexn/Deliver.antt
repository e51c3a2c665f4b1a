-- ===== src/Swexn/Deliver.antt =====
-- kern/exception/exception_handler_real.c: how an exception comes to the thread's handler.
pub mod Frame
use p.Base.{ℕ, zero, suc, ◌+◌, ◌-◌, ◌*◌, ◌%◌, ◌^◌, Option, none, some, if◌then◌else◌, ◌==◌, update}
use p.Swexn.{SwexnInfo}

-- A `ureg_t` by the number of the word: cr2 is word 1 and eflags word 17 of 20.
abbrev pub ureg_words : ℕ
ureg_words = 20

-- What `enter_user_mode` is called with, and what has been written: the handler's address, the
-- stack pointer, the words of the user's memory by their address, and the thread's `swexn_info`.
pub record Entered : Type 0 where
  pub eip : ℕ
  pub esp : ℕ
  pub memory : ℕ → ℕ
  pub info : SwexnInfo

-- `memcpy` of `n` words from word `k` on.
unfoldable pub copy_words : ℕ → (ℕ → ℕ) → ℕ → ℕ → (ℕ → ℕ) → ℕ → ℕ
copy_words to ureg zero k memory = memory
copy_words to ureg (suc n) k memory =
    copy_words to ureg n (k + 1) (update memory (to + 4 * k) (ureg k))

abbrev pub minus : ℕ → ℕ → ℕ
minus a b = (a + 2 ^ 32 - b) % 2 ^ 32

-- `none` is a thread without a handler, which is ended.
unfoldable pub get_real_handler : ℕ → (ℕ → ℕ) → SwexnInfo → (ℕ → ℕ) → Option Entered
get_real_handler cr2 cur_ureg info memory =
    if info.installed_flag == 0
    then none
    else let ureg = update cur_ureg 1 cr2 in
      let new_esp = minus info.esp3 (4 * ureg_words) in
      let copied = copy_words new_esp ureg ureg_words 0 memory in
      let pushed = update copied (minus new_esp 4) new_esp in
      some (record {
        eip = info.eip;
        esp = minus new_esp 12;
        memory = update pushed (minus new_esp 8) info.arg;
        info = record {
          esp3 = 0;
          eip = 0;
          arg = 0;
          newureg = 0;
          installed_flag = 0;
          eflags = ureg 17;
        };
      })
