-- ===== src/Fork/Translate.antt =====
-- How the addresses that `memcpy` is given are translated while a page is copied.
use p.Base.{
  none, Option, ap, inl, inr, Bool-cases, ℕ, ◌<◌, ◌≡◌, refl, sym, ◌∙◌, ◌≢◌, Bool, false, some, ◌∷◌,
  arith, ◌==◌, if◌then◌else◌, update, ne→==-false, ==_refl,
}
use mathlib.Core.Path.{ap₂}
use p.Paging.{Vm, deflag, page_len, pd_ind, pt_ind}
use p.Fork.{Slot, Forked, page_addr, translate, touch, memcpy_page, walk_tables}

-- The table to be copied is that of region `i` of the parent's directory, whose pages the processor
-- translates as the directory says, and it keeps no translation of the slot.
pub record IsRegion (f : Forked) (pd : ℕ) (e : Slot) (i pt : ℕ) : Type 0 where
  pub region : deflag (f.vm.tables pd i) ≡ pt
  pub region_inside : i < page_len
  pub slot_inside : (e.pd_index < page_len) × (e.pt_index < page_len)
  pub translated :
      (k : ℕ) → k < page_len → translate pd (page_addr i k) f ≡ deflag (f.vm.tables pt k)
  pub unseen : f.tlb (page_addr e.pd_index e.pt_index) ≡ none

page_addr-pd_ind : (i j : ℕ) → i < page_len → pd_ind (page_addr i j) ≡ i
page_addr-pd_ind i j hi = omega arith

page_addr-pt_ind : (i j : ℕ) → j < page_len → pt_ind (page_addr i j) ≡ j
page_addr-pt_ind i j hj = omega arith

pub walk_tables-page_addr :
    (pd i j : ℕ) (vm : Vm)
    → i < page_len
    → j < page_len
    → walk_tables pd (page_addr i j) vm ≡ deflag (vm.tables (deflag (vm.tables pd i)) j)
walk_tables-page_addr pd i j vm hi hj = rw (page_addr-pd_ind i j hi, page_addr-pt_ind i j hj) refl

pub page_addr-apart :
    (i j i' j' : ℕ)
    → i < page_len
    → j < page_len
    → i' < page_len
    → j' < page_len
    → ((i ≡ i') × (j ≡ j') → ⊥)
    → page_addr i j ≢ page_addr i' j'
page_addr-apart i j i' j' hi hj hi' hj' ne e = ne (omega arith, omega arith)

touch-other : (pd v w : ℕ) (f : Forked) → v ≢ w → translate pd v (touch pd w f) ≡ translate pd v f
touch-other pd v w f ne = ap (kept_or f v w) (ne→==-false v w ne)
  where
    kept_or : Forked → ℕ → ℕ → Bool → ℕ
    kept_or f v w b = elim (if b then some (translate pd w f) else f.tlb v) [
      | none ↦ walk_tables pd v f.vm
      | some a ↦ a
    ]

touch-same : (pd w : ℕ) (f : Forked) → translate pd w (touch pd w f) ≡ translate pd w f
touch-same pd w f = ap kept_or (==_refl w)
  where
    kept_or : Bool → ℕ
    kept_or b = elim (if b then some (translate pd w f) else f.tlb w) [
      | none ↦ walk_tables pd w f.vm
      | some a ↦ a
    ]

unseen-translate :
    (pd w : ℕ) (f : Forked) → f.tlb w ≡ none → translate pd w f ≡ walk_tables pd w f.vm
unseen-translate pd w f e = ap (λ o. elim o [ none ↦ walk_tables pd w f.vm | some a ↦ a ]) e

-- A page is copied behind an access to its destination.
pub memcpy_page-copies :
    (pd v w : ℕ) (f : Forked)
    → f.tlb w ≡ none
    → v ≢ w
    → (memcpy_page pd w v (touch pd w f)).copies
      ≡ (walk_tables pd w f.vm, translate pd v f) ∷ f.copies
memcpy_page-copies pd v w f unseen ne =
    ap₂ (λ a b. (a, b) ∷ f.copies)
      (touch-other pd w v (touch pd w f) (λ h. ne (sym h))
        ∙ (touch-same pd w f ∙ unseen-translate pd w f unseen))
      (touch-other pd v w f ne)

pub other_word :
    (tables : ℕ → ℕ → ℕ) (t s x pt j : ℕ)
    → ((pt ≡ t) × (j ≡ s) → ⊥)
    → update tables t (update (tables t) s x) pt j ≡ tables pt j
other_word tables t s x pt j ne = elim (Bool-cases (pt == t)) [
  | inl h ↦
      let at : pt ≡ t = ground (arith, h) in
      let off : (j == s) ≡ false = ne→==-false j s (λ e. ne (at, e)) in rw (at, ==_refl t, off) refl
  | inr h ↦ rw h refl
]

-- A translation that is kept does not follow the tables; one that is made again agrees.
pub same_translation :
    (o : Option ℕ) (x y z : ℕ)
    → (elim o [ none ↦ x | some a ↦ a ]) ≡ z
    → y ≡ z
    → (elim o [ none ↦ y | some a ↦ a ]) ≡ z
same_translation none x y z e e' = e'
same_translation (some a) x y z e e' = e
