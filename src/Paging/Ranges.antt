-- ===== src/Paging/Ranges.antt =====
-- Ranges of pages that are taken away one behind the other.
use p.Base.{ℕ, zero, suc, ◌+◌, ◌/◌, ◌%◌, ◌<◌, ◌≤◌, ◌≡◌, refl, ◌∙◌, false, arith, ap}
use p.Paging.{Vm, page_len}
use p.Paging.View.{in_range}
use p.Paging.Free.{page, held, held-same, IsCovered, Frees}

pub held-append :
    (vm : Vm) (pd s a b f : ℕ) → held vm pd s (a + b) f ≡ held vm pd s a f + held vm pd (s + a) b f
unfolding held
held-append vm pd s zero b f =
    let e : s + 0 ≡ s = omega arith in let e' : 0 + b ≡ b = omega arith in rw (e, e') (omega arith)
held-append vm pd s (suc a) b f =
    let e : s + 1 + a ≡ s + suc a = omega arith in
    let e' : suc a + b ≡ suc (a + b) = omega arith in
    rw e' (omega (arith, held-append vm pd (s + 1) a b f, ap (λ q. held vm pd q b f) e))

pub held-none :
    (vm : Vm) (pd s n f : ℕ)
    → ((p : ℕ) → s ≤ p → p < s + n → page vm pd p ≡ 0)
    → held vm pd s n f ≡ 0
unfolding held
held-none vm pd s zero f h = refl
held-none vm pd s (suc n) f h =
    rw
      (
        h s (omega arith) (omega arith),
        held-none vm pd (s + 1) n f (λ p lo hi. h p (omega (arith, lo)) (omega (arith, hi))),
      )
      refl

-- One range, and then the next.
module _ (vm vm1 : Vm) (pd s a b : ℕ) (first : Frees vm vm1 pd s a) where
  behind : (p : ℕ) → s + a ≤ p → page vm1 pd p ≡ page vm pd p
  behind p le = first.pages (p / page_len) (p % page_len) (omega arith) ∙ rw (out p le) refl
    where
      out : (p : ℕ) → s + a ≤ p → in_range s a (p / page_len) (p % page_len) ≡ false
      out p le = ground (arith, le)

  kept : (f : ℕ) → held vm1 pd (s + a) b f ≡ held vm pd (s + a) b f
  kept f = held-same vm vm1 pd (s + a) b f behind

  pub Frees-IsCovered : IsCovered vm pd s (a + b) → IsCovered vm1 pd (s + a) b
  Frees-IsCovered covered f = (
    omega (arith, (covered f).0, first.counts f, kept f, held-append vm pd s a b f),
    omega (arith, (covered f).1, first.counts f),
  )

  pub Frees-append : (vm' : Vm) → Frees vm1 vm' pd (s + a) b → Frees vm vm' pd s (a + b)
  Frees-append vm' rest = record {
    directory = rest.directory;
    pages = λ i j hj. rest.pages i j hj ∙ (rw (first.pages i j hj) (ground arith));
    counts = λ f. omega (arith, rest.counts f, first.counts f, kept f, held-append vm pd s a b f);
  }
