-- ===== src/Files/Reading.antt =====
-- What `readfile` returns, and the bytes that it copies.
use p.Base.{
  ℕ, ◌+◌, ◌-◌, ◌^◌, ◌<◌, ◌≤◌, ◌≡◌, refl, ◌⊎◌, inl, inr, true, false, List, [], ◌∷◌, arith,
  if◌then◌else◌, Bool-cases, ltb, ◌||◌,
}
use p.Files.{Name, same_name, Entry, Buffer, memcpy, read_entry, read_found, negative, sys_readfile}

-- The first file of a name, if there is one.
abbrev pub file_of : List Entry → Name → List Entry
file_of [] name = []
file_of (e ∷ es) name = if same_name e.execname name then e ∷ [] else file_of es name

-- The bytes from the offset on, as many as asked for or as the file has: `n` of them.
pub record IsPart (e : Entry) (size offset n : ℕ) (buf buf' : Buffer) : Type 0 where
  pub inside : offset + n ≤ e.execlen
  pub fits : n ≤ size
  pub whole : (n ≡ size) ⊎ (offset + n ≡ e.execlen)
  pub copied : (i : ℕ) → i < n → buf' i ≡ e.execbytes (offset + i)
  pub kept : (i : ℕ) → n ≤ i → buf' i ≡ buf i

read_entry-IsPart :
    (e : Entry) (buf : Buffer) (size offset : ℕ)
    → offset ≤ e.execlen
    → IsPart e size offset (read_entry e buf size offset).0 buf (read_entry e buf size offset).1
unfolding memcpy
read_entry-IsPart e buf size offset h = record {
  inside = ground arith;
  fits = ground arith;
  whole = elim (Bool-cases (ltb size (e.execlen - offset))) [
    | inl short ↦ inl (ground (arith, short))
    | inr long ↦ inr (ground (arith, long))
  ];
  copied = λ i lo. ground arith;
  kept = λ i hi. ground arith;
}

read_found-first :
    (toc : List Entry) (name : Name) (buf : Buffer) (size offset : ℕ) (e : Entry) (es : List Entry)
    → file_of toc name ≡ e ∷ es
    → read_found toc name buf size offset ≡ read_entry e buf size offset
read_found-first [] name buf size offset e es h = absurd (cc)
read_found-first (x ∷ xs) name buf size offset e es h =
    elim (Bool-cases (same_name x.execname name)) [
      | inl hit ↦ let same : x ≡ e = cc (rw hit at h) in rw (hit, same) refl
      | inr miss ↦ rw miss (read_found-first xs name buf size offset e es (rw miss at h))
    ]

-- For pointers that pass their tests, a size and an offset below 2 ^ 31, and a file of the name
-- that is no shorter than the offset: sys_readfile copies the bytes of the first such file from
-- the offset on, as many as asked for or as there are up to the end of the file, returns their
-- number, and changes no byte of the buffer behind them.
pub sys_readfile-IsPart :
    (toc : List Entry) (name : Name) (buf : Buffer) (size offset : ℕ) (e : Entry) (es : List Entry)
    → size < 2 ^ 31
    → offset < 2 ^ 31
    → file_of toc name ≡ e ∷ es
    → offset ≤ e.execlen
    → IsPart e size offset
        (sys_readfile toc true name buf size offset).0
        buf
        (sys_readfile toc true name buf size offset).1
unfolding sys_readfile
sys_readfile-IsPart toc name buf size offset e es hs ho found inside =
    let signs : negative size || negative offset ≡ false = ground arith in
    rw (signs, read_found-first toc name buf size offset e es found)
      (read_entry-IsPart e buf size offset inside)
