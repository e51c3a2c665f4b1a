-- ===== src/Files.antt =====
-- kern/syscall/sys_misc.c and kern/loader.c: the calls that read the files built into the kernel.
-- The table of these files is made by the build and is an argument.
pub mod Reading
use p.Base.{
  ℕ, zero, suc, ◌+◌, ◌-◌, ◌^◌, Bool, true, false, not, ◌&&◌, ◌||◌, List, [], ◌∷◌, if◌then◌else◌,
  ◌==◌, ltb, leb,
}
use p.Paging.{minus_one}

-- A string as its characters; the test of `strcmp` against 0.
abbrev pub Name : Type 0
Name = List ℕ

abbrev pub same_name : Name → Name → Bool
same_name [] [] = true
same_name [] (c ∷ cs) = false
same_name (b ∷ bs) [] = false
same_name (b ∷ bs) (c ∷ cs) = (b == c) && same_name bs cs

-- A row of `exec2obj_userapp_TOC`, with the bytes from `execbytes` on, also those behind the file.
pub record Entry : Type 0 where
  pub execname : Name
  pub execbytes : ℕ → ℕ
  pub execlen : ℕ

-- A buffer as a function of the offset from its base.
abbrev pub Buffer : Type 0
Buffer = ℕ → ℕ

unfoldable pub memcpy : Buffer → (ℕ → ℕ) → ℕ → ℕ → Buffer
memcpy buf bytes from n = λ i. if ltb i n then bytes (from + i) else buf i

-- `execlen - offset` is negative where the offset is behind the end of the file. Lengths are `int`s.
abbrev pub read_entry : Entry → Buffer → ℕ → ℕ → ℕ × Buffer
read_entry e buf size offset =
    if ltb e.execlen offset
    then (minus_one, buf)
    else let realsize = if ltb size (e.execlen - offset) then size else e.execlen - offset in
      (realsize, memcpy buf e.execbytes offset realsize)

abbrev pub read_found : List Entry → Name → Buffer → ℕ → ℕ → ℕ × Buffer
read_found [] name buf size offset = (minus_one, buf)
read_found (e ∷ es) name buf size offset =
    let rest = read_found es name buf size offset in
    if same_name e.execname name then read_entry e buf size offset else rest

abbrev pub negative : ℕ → Bool
negative x = leb (2 ^ 31) x

-- `valid` tells whether the two pointers pass the tests on them.
unfoldable pub sys_readfile : List Entry → Bool → Name → Buffer → ℕ → ℕ → ℕ × Buffer
sys_readfile toc valid name buf size offset =
    if not valid
    then (minus_one, buf)
    else if negative size || negative offset
    then (minus_one, buf)
    else read_found toc name buf size offset

unfoldable pub getbytes : List Entry → Name → ℕ → ℕ → Buffer → ℕ × Buffer
getbytes [] name offset size buf = (minus_one, buf)
getbytes (e ∷ es) name offset size buf =
    let rest = getbytes es name offset size buf in
    if same_name e.execname name then (size, memcpy buf e.execbytes offset size) else rest
