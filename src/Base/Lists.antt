-- ===== src/Base/Lists.antt =====
-- Lists of native numbers: length, membership by a Boolean test, ends, distinctness.
use Prim.Native.Nat.{ℕ, suc, ◌+◌}
use mathlib.Core.Path.{◌≡◌, refl, ◌∙◌}
use mathlib.Core.Bool.{Bool, true, false, ◌||◌}
use mathlib.Core.List.{List, [], ◌∷◌, ◌++◌}
use native.Mathlib.Omega.{arith}
use mathlib.Core.Logic.{inl, inr}
use p.Base.Tests.{◌==◌, Bool-cases}

module _ {ℓ} {A : Type ℓ} where
  abbrev pub length : List A → ℕ
  length [] = 0
  length (x ∷ xs) = suc (length xs)

  pub length-append : (xs ys : List A) → length (xs ++ ys) ≡ length xs + length ys
  length-append [] ys = omega arith
  length-append (x ∷ xs) ys = omega (arith, length-append xs ys)

  -- The first element, or `d` where there is none.
  abbrev pub first : A → List A → A
  first d [] = d
  first d (x ∷ xs) = x

  -- The last element, or `d` where there is none.
  abbrev pub last : A → List A → A
  last d [] = d
  last d (x ∷ xs) = last x xs

  pub first-append : (d : A) (xs ys : List A) → first d (xs ++ ys) ≡ first (first d ys) xs
  first-append d [] ys = refl
  first-append d (x ∷ xs) ys = refl

  pub last-append : (d : A) (xs ys : List A) → last d (xs ++ ys) ≡ last (last d xs) ys
  last-append d [] ys = refl
  last-append d (x ∷ xs) ys = last-append x xs ys

abbrev pub has : ℕ → List ℕ → Bool
has a [] = false
has a (x ∷ xs) = (a == x) || has a xs

pub has-append : (a : ℕ) (xs ys : List ℕ) → has a (xs ++ ys) ≡ (has a xs || has a ys)
has-append a [] ys = refl
has-append a (x ∷ xs) ys = ground (arith, has-append a xs ys)

abbrev pub Distinct : List ℕ → Type 0
Distinct [] = Unit
Distinct (x ∷ xs) = (has x xs ≡ false) × Distinct xs

abbrev pub Disjoint : List ℕ → List ℕ → Type 0
Disjoint xs ys = (a : ℕ) → has a xs ≡ true → has a ys ≡ false

-- The last element of a list that is not empty is one of its elements.
pub has-last : (x : ℕ) (xs : List ℕ) → has (last x xs) (x ∷ xs) ≡ true
has-last x [] = ground arith
has-last x (y ∷ xs) = ground (arith, has-last y xs)

pub Distinct-append :
    (xs ys : List ℕ) → Distinct xs → Distinct ys → Disjoint xs ys → Distinct (xs ++ ys)
Distinct-append [] ys d e apart = e
Distinct-append (x ∷ xs) ys d e apart = (
  ground (arith, has-append x xs ys, apart x),
  Distinct-append xs ys d.1 e (λ a h. ground (arith, apart a)),
)

pub Distinct-left : (xs ys : List ℕ) → Distinct (xs ++ ys) → Distinct xs
Distinct-left [] ys d = tt
Distinct-left (x ∷ xs) ys d = (ground (arith, has-append x xs ys), Distinct-left xs ys d.1)

pub Distinct-right : (xs ys : List ℕ) → Distinct (xs ++ ys) → Distinct ys
Distinct-right [] ys d = d
Distinct-right (x ∷ xs) ys d = Distinct-right xs ys d.1

pub Distinct-apart : (xs ys : List ℕ) → Distinct (xs ++ ys) → Disjoint xs ys
Distinct-apart [] ys d a h = ground arith
Distinct-apart (x ∷ xs) ys d a h =
    ground (arith, has-append x xs ys, Distinct-apart xs ys d.1 a, ==_cases a x)
  where
    ==_cases : (a b : ℕ) → (a == b) ≡ true → a ≡ b
    ==_cases a b e = ground arith

-- In a list without repetition an element stands once.
pub Distinct-middle :
    (xs : List ℕ) (y : ℕ) (zs : List ℕ) → Distinct (xs ++ (y ∷ zs)) → has y (xs ++ zs) ≡ false
Distinct-middle [] y zs d = d.0
Distinct-middle (x ∷ xs) y zs d =
    ground (arith, Distinct-middle xs y zs d.1, has-append x xs (y ∷ zs), d.0)

-- Leaving one element out of a list leaves no new ones.
pub has-middle :
    (a : ℕ) (xs : List ℕ) (y : ℕ) (zs : List ℕ)
    → has a (xs ++ zs) ≡ true
    → has a (xs ++ (y ∷ zs)) ≡ true
has-middle a xs y zs h = ground (arith, has-append a xs zs, has-append a xs (y ∷ zs))

-- A list has the element in its middle.
pub has-middle_self : (xs : List ℕ) (y : ℕ) (zs : List ℕ) → has y (xs ++ (y ∷ zs)) ≡ true
has-middle_self xs y zs = ground (arith, has-append y xs (y ∷ zs))

pub Disjoint-symm : (xs ys : List ℕ) → Disjoint xs ys → Disjoint ys xs
Disjoint-symm xs ys apart a h = elim (Bool-cases (has a xs)) [ inl e ↦ cc (apart a e) | inr e ↦ e ]

pub has-snoc : (a : ℕ) (xs : List ℕ) (c : ℕ) → has a (xs ++ (c ∷ [])) ≡ has a (c ∷ xs)
has-snoc a xs c = ground (arith, has-append a xs (c ∷ []))

-- Two lists stay apart when one of them grows by what is not in the other.
pub Disjoint-cons :
    (xs ys : List ℕ) (c : ℕ) → Disjoint xs ys → has c xs ≡ false → Disjoint xs (c ∷ ys)
Disjoint-cons xs ys c apart out a h = ground (arith, apart a h)

pub Disjoint-snoc :
    (xs ys : List ℕ) (c : ℕ) → Disjoint xs ys → has c xs ≡ false → Disjoint xs (ys ++ (c ∷ []))
Disjoint-snoc xs ys c apart out a h = has-snoc a ys c ∙ Disjoint-cons xs ys c apart out a h

pub Disjoint-snoc_left :
    (xs ys : List ℕ) (c : ℕ) → Disjoint xs ys → has c ys ≡ false → Disjoint (xs ++ (c ∷ [])) ys
Disjoint-snoc_left xs ys c apart out a h = ground (arith, rw (has-snoc a xs c) at h, apart a)

-- Leaving an element out keeps two lists apart.
pub Disjoint-middle :
    (xs ys : List ℕ) (y : ℕ) (zs : List ℕ) → Disjoint xs (ys ++ (y ∷ zs)) → Disjoint xs (ys ++ zs)
Disjoint-middle xs ys y zs apart a h =
    ground (arith, has-append a ys zs, has-append a ys (y ∷ zs), apart a h)
