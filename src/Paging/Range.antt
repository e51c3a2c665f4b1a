-- ===== src/Paging/Range.antt =====
-- A range of pages of which every one is mapped, and how it grows by one page.
use p.Base.{
  ℕ, suc, ◌+◌, ◌*◌, ◌<◌, ◌≤◌, ◌≡◌, refl, sym, ◌∙◌, ◌≢◌, true, false, List, [], ◌∷◌, arith, ◌==◌,
  if◌then◌else◌, update, Bool-cases, inl, inr, ne→==-false, ==_refl,
}
use native.Mathlib.Decide.{dec_lt}
use p.Frames.{total_frames}
use p.Frames.Search.{FirstFree}
use p.Frames.Acquire.{At}
use p.Paging.{Vm, page_len}
use p.Paging.View.{pte, IsDirectory, Supplies, next-IsNew, Grows-Supplies, in_range, same_page}
use p.Paging.Map.{user_entry, CanMap, Maps, Stepped}

-- Free frames behind frame `c`, in ascending order.
abbrev pub AllFree : (ℕ → ℕ) → ℕ → List ℕ → Type 0
AllFree refcount c [] = Unit
AllFree refcount c (k ∷ ks) =
    (c < k) × (k < total_frames) × (refcount k ≡ 0) × AllFree refcount k ks

-- They are free when `c` has been handed out, and behind any frame that is not behind the first.
pub AllFree-after :
    (refcount : ℕ → ℕ) (c q k : ℕ) (ks : List ℕ)
    → AllFree refcount k ks
    → c ≤ k
    → q ≤ k
    → AllFree (update refcount c 1) q ks
AllFree-after refcount c q k [] f hc hq = tt
AllFree-after refcount c q k (m ∷ ms) f hc hq = (
  omega (arith, f.0),
  f.1,
  rw (ne→==-false m c (omega (arith, f.0))) f.2,
  AllFree-after refcount c m m ms f.3 (omega (arith, f.0)) (omega arith),
)

pub first_behind :
    (refcount : ℕ → ℕ) (c q k : ℕ)
    → FirstFree (update refcount c 1) c q
    → c < k
    → refcount k ≡ 0
    → q ≤ k
first_behind refcount c q k first lt free = elim (dec_lt k q) [
  | yes h ↦ absurd (first.used_before k (omega arith) h (rw (ne→==-false k c (omega arith)) free))
  | no h ↦ omega (arith, h)
]

-- A directory that can take as many more pages as `ks` is long: frame `c` is next to be handed out,
-- and the frames `ks` behind it are free.
pub record CanMapAll (memalign : ℕ → ℕ) (vm : Vm) (pd c : ℕ) (ks : List ℕ) : Type 0 where
  pub directory : IsDirectory vm pd
  pub supplies : Supplies memalign vm pd
  pub frames : At vm.frames c
  pub not_first : 0 < c
  pub free : AllFree vm.frames.refcount c ks

pub CanMapAll-CanMap :
    (memalign : ℕ → ℕ) (vm : Vm) (pd c k : ℕ) (ks : List ℕ)
    → CanMapAll memalign vm pd c (k ∷ ks)
    → CanMap memalign vm pd c k
CanMapAll-CanMap memalign vm pd c k ks can = record {
  directory = can.directory;
  new = next-IsNew memalign vm pd can.supplies;
  frames = can.frames;
  not_first = can.not_first;
  behind = can.free.0;
  inside = can.free.1;
  free = can.free.2;
}

pub Stepped-CanMapAll :
    (memalign : ℕ → ℕ) (vm vm' : Vm) (pd i j c q k : ℕ) (ks : List ℕ)
    → CanMapAll memalign vm pd c (k ∷ ks)
    → Stepped memalign vm vm' pd i j c q
    → CanMapAll memalign vm' pd q ks
Stepped-CanMapAll memalign vm vm' pd i j c q k ks can s =
    let near = first_behind vm.frames.refcount c q k s.first can.free.0 can.free.2 in
    record {
      directory = s.maps.directory;
      supplies = Grows-Supplies memalign vm vm' pd s.grows can.supplies;
      frames = s.next;
      not_first = omega (arith, can.not_first, s.first.behind);
      free =
          rw s.maps.counts
            (AllFree-after vm.frames.refcount c q k ks can.free.3 (omega (arith, can.free.0)) near);
    }

-- What has changed when the `n` pages from page `start` on have been mapped.
pub record MapsAll (vm vm' : Vm) (pd start n : ℕ) : Type 0 where
  pub directory : IsDirectory vm' pd
  pub mapped :
      (a b : ℕ)
      → b < page_len
      → in_range start n a b ≡ true
      → (c : ℕ) × (0 < c)
        × (vm.frames.refcount c ≡ 0)
        × (pte vm' pd a b ≡ user_entry c)
        × (vm'.frames.refcount c ≡ 1)
  pub kept :
      (a b : ℕ) → b < page_len → in_range start n a b ≡ false → pte vm' pd a b ≡ pte vm pd a b
  pub counts : (f : ℕ) → vm.frames.refcount f ≢ 0 → vm'.frames.refcount f ≡ vm.frames.refcount f
  pub unshared :
      (a b a' b' : ℕ)
      → b < page_len
      → b' < page_len
      → in_range start n a b ≡ true
      → in_range start n a' b' ≡ true
      → pte vm' pd a b ≡ pte vm' pd a' b'
      → a * page_len + b ≡ a' * page_len + b'

-- The pages of a range, none of which is mapped.
abbrev pub IsVacant : Vm → ℕ → ℕ → ℕ → Type 0
IsVacant vm pd start n = (a b : ℕ) → b < page_len → in_range start n a b ≡ true → pte vm pd a b ≡ 0

pub page_at :
    (vm vm1 : Vm) (pd start r o c : ℕ)
    → r * page_len + o ≡ start
    → o < page_len
    → Maps vm vm1 pd r o c
    → (a b : ℕ) → b < page_len
    → pte vm1 pd a b ≡ (if a * page_len + b == start then user_entry c else pte vm pd a b)
page_at vm vm1 pd start r o c at ho one a b hb =
    rw (one.page a b, same_page start a b r o at ho hb) refl

-- Page `r`, `o` is the first of the range, and gets frame `c`; then the others are mapped.
module _ (vm vm1 vm' : Vm) (pd start n r o c : ℕ) (at : r * page_len + o ≡ start)
    (ho : o < page_len) (one : Maps vm vm1 pd r o c) (pos : 0 < c)
    (was_free : vm.frames.refcount c ≡ 0) (rest : MapsAll vm1 vm' pd (start + 1) n) where
  used_now : vm1.frames.refcount c ≡ 1
  used_now = rw (one.counts, ==_refl c) refl

  first_mapped :
      (a b : ℕ) → b < page_len → (a * page_len + b == start) ≡ true → pte vm' pd a b ≡ user_entry c
  first_mapped a b hb h =
      rest.kept a b hb (ground (arith, h))
      ∙ (rw (page_at vm vm1 pd start r o c at ho one a b hb, h) refl)

  later_mapped :
      (a b : ℕ)
      → b < page_len
      → (a * page_len + b == start) ≡ false
      → in_range start (suc n) a b ≡ true
      → (d : ℕ) × (0 < d)
        × (d ≢ c)
        × (vm.frames.refcount d ≡ 0)
        × (pte vm' pd a b ≡ user_entry d)
        × (vm'.frames.refcount d ≡ 1)
  later_mapped a b hb h inside =
      let (d, pd', free, entry, counted) = rest.mapped a b hb (ground (arith, h, inside)) in
      let ne : d ≢ c = λ e. omega (arith, (rw e at free), used_now) in
      (d, pd', ne, (rw (one.counts, ne→==-false d c ne) at free), entry, counted)

  -- No later page has the frame of the first.
  first_alone :
      (a b a' b' : ℕ)
      → b < page_len
      → b' < page_len
      → (a * page_len + b == start) ≡ true
      → (a' * page_len + b' == start) ≡ false
      → in_range start (suc n) a' b' ≡ true
      → pte vm' pd a b ≢ pte vm' pd a' b'
  first_alone a b a' b' hb hb' h h' inside e =
      let (d, pos', ne, free, entry, counted) = later_mapped a' b' hb' h' inside in
      ne (omega (arith, first_mapped a b hb h, entry, e))

  pub first-MapsAll : MapsAll vm vm' pd start (suc n)
  first-MapsAll = record {
    directory = rest.directory;
    mapped = λ a b hb inside. elim (Bool-cases (a * page_len + b == start)) [
      | inl h ↦ (
        c,
        pos,
        was_free,
        first_mapped a b hb h,
        rest.counts c (omega (arith, used_now)) ∙ used_now,
      )
      | inr h ↦
          let (d, pd', ne, free, entry, counted) = later_mapped a b hb h inside in
          (d, pd', free, entry, counted)
    ];
    kept = λ a b hb out.
        rest.kept a b hb (ground (arith, out))
        ∙ (let h : (a * page_len + b == start) ≡ false = ground (arith, out) in
            rw (page_at vm vm1 pd start r o c at ho one a b hb, h) refl);
    counts = λ f used.
        let ne : f ≢ c = λ e. used (rw e was_free) in
        let same : vm1.frames.refcount f ≡ vm.frames.refcount f =
          rw (one.counts, ne→==-false f c ne) refl in
        rest.counts f (λ e. used (sym same ∙ e)) ∙ same;
    unshared = λ a b a' b' hb hb' inside inside' e. elim (Bool-cases (a * page_len + b == start)) [
      | inl h ↦ elim (Bool-cases (a' * page_len + b' == start)) [
        | inl h' ↦ ground (arith, h, h')
        | inr h' ↦ absurd (first_alone a b a' b' hb hb' h h' inside' e)
      ]
      | inr h ↦ elim (Bool-cases (a' * page_len + b' == start)) [
        | inl h' ↦ absurd (first_alone a' b' a b hb' hb h' h inside (sym e))
        | inr h' ↦
            rest.unshared a b a' b' hb hb' (ground (arith, h, inside)) (ground (arith, h', inside'))
              e
      ]
    ];
  }
