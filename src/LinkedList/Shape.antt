-- ===== src/LinkedList/Shape.antt =====
-- When a `list` object and its nodes stand for a sequence of nodes.
use p.Base.{
  ◌≡◌, refl, ◌≢◌, ◌∙◌, true, false, List, [], ◌∷◌, ◌++◌, arith, if◌then◌else◌, ◌==◌, Bool-cases,
  has, length, first, last, Distinct, first-append,
}
use p.LinkedList.{Ptr, null, Store}

-- The nodes of `xs` are linked both ways, behind `before` and in front of `after`.
abbrev pub Links : Store → Ptr → Ptr → List Ptr → Type 0
Links m before after [] = Unit
Links m before after (x ∷ xs) =
    (x ≢ null) × (m.prev x ≡ before) × (m.next x ≡ first after xs) × Links m x after xs

pub record IsList (m : Store) (l : Ptr) (xs : List Ptr) : Type 0 where
  pub head : m.head l ≡ first null xs
  pub tail : m.tail l ≡ last null xs
  pub length : m.length l ≡ length xs
  pub links : Links m null null xs
  pub distinct : Distinct xs

-- Links depend on the fields of their own nodes alone.
pub Links-frame :
    (m m' : Store) (b a : Ptr) (xs : List Ptr)
    → Links m b a xs
    → ((x : Ptr) → has x xs ≡ true → (m'.prev x ≡ m.prev x) × (m'.next x ≡ m.next x))
    → Links m' b a xs
Links-frame m m' b a [] s same = tt
Links-frame m m' b a (x ∷ xs) s same = (
  s.0,
  ground (arith, same x),
  ground (arith, same x),
  Links-frame m m' x a xs s.3 (λ y h. same y (ground arith)),
)

-- A node outside a list is not its last one.
pub ne-last : (x y : Ptr) (xs : List Ptr) → has x (y ∷ xs) ≡ false → (x == last y xs) ≡ false
ne-last x y [] h = ground arith
ne-last x y (z ∷ xs) h = ne-last x z xs (ground arith)

-- Where the last node's `next` is changed, and nothing else of the segment.
pub Links-end :
    (m m' : Store) (b a a' : Ptr) (xs : List Ptr)
    → Links m b a xs
    → Distinct xs
    → ((x : Ptr)
        → has x xs ≡ true
        → (m'.prev x ≡ m.prev x) × (m'.next x ≡ (if x == last b xs then a' else m.next x)))
    → Links m' b a' xs
Links-end m m' b a a' [] s d same = tt
Links-end m m' b a a' (x ∷ []) s d same = (s.0, ground (arith, same x), ground (arith, same x), tt)
Links-end m m' b a a' (x ∷ y ∷ xs) s d same = (
  s.0,
  ground (arith, same x),
  ground (arith, same x, ne-last x y xs),
  Links-end m m' x a a' (y ∷ xs) s.3 d.1 (λ z h. same z (ground arith)),
)

-- Where the first node's `prev` is changed, and nothing else of the segment.
pub Links-start :
    (m m' : Store) (b b' a : Ptr) (xs : List Ptr)
    → Links m b a xs
    → Distinct xs
    → ((x : Ptr)
        → has x xs ≡ true
        → (m'.prev x ≡ (if x == first b' xs then b' else m.prev x)) × (m'.next x ≡ m.next x))
    → Links m' b' a xs
Links-start m m' b b' a [] s d same = tt
Links-start m m' b b' a (x ∷ xs) s d same = (
  s.0,
  ground (arith, same x),
  ground (arith, same x),
  Links-frame m m' x a xs s.3 (λ y h. ground (arith, same y, Bool-cases (y == x))),
)

pub Links-append :
    (m : Store) (b a : Ptr) (xs ys : List Ptr)
    → Links m b (first a ys) xs
    → Links m (last b xs) a ys
    → Links m b a (xs ++ ys)
Links-append m b a [] ys s t = t
Links-append m b a (x ∷ xs) ys s t =
    (s.0, s.1, rw (first-append a xs ys) s.2, Links-append m x a xs ys s.3 t)

pub Links-left :
    (m : Store) (b a : Ptr) (xs ys : List Ptr) → Links m b a (xs ++ ys) → Links m b (first a ys) xs
Links-left m b a [] ys s = tt
Links-left m b a (x ∷ xs) ys s = (s.0, s.1, s.2 ∙ first-append a xs ys, Links-left m x a xs ys s.3)

pub Links-right :
    (m : Store) (b a : Ptr) (xs ys : List Ptr) → Links m b a (xs ++ ys) → Links m (last b xs) a ys
Links-right m b a [] ys s = s
Links-right m b a (x ∷ xs) ys s = Links-right m x a xs ys s.3

-- No linked node is NULL.
pub not-has-null : (m : Store) (b a : Ptr) (xs : List Ptr) → Links m b a xs → has null xs ≡ false
not-has-null m b a [] s = refl
not-has-null m b a (x ∷ xs) s = ground (arith, not-has-null m x a xs s.3)

-- The last node of a list that is not empty is not NULL.
pub last-ne-null :
    (m : Store) (b a x : Ptr) (xs : List Ptr) → Links m b a (x ∷ xs) → (last x xs == null) ≡ false
last-ne-null m b a x [] s = ground arith
last-ne-null m b a x (y ∷ xs) s = last-ne-null m x a y xs s.3

-- Another list is untouched by what writes only to `l` and to nodes that are not its own.
pub IsList-frame :
    (m m' : Store) (l : Ptr) (xs : List Ptr)
    → IsList m l xs
    → (m'.head l ≡ m.head l) × (m'.tail l ≡ m.tail l) × (m'.length l ≡ m.length l)
    → ((x : Ptr) → has x xs ≡ true → (m'.prev x ≡ m.prev x) × (m'.next x ≡ m.next x))
    → IsList m' l xs
IsList-frame m m' l xs is own same = record {
  head = own.0 ∙ is.head;
  tail = own.1 ∙ is.tail;
  length = own.2 ∙ is.length;
  links = Links-frame m m' null null xs is.links same;
  distinct = is.distinct;
}
