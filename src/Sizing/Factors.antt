-- ===== src/Sizing/Factors.antt =====
-- The factorisation loops of IterationSizingUtils.cpp.
use native.Mathlib.Nat.{
  mul_assoc, mul_comm, mul-le-mul, mul-one, one-mul, div-add-mod', div-lt_self, mul-mod_left,
}
use carts.Base.{
  ℕ, zero, suc, ◌+◌, ◌*◌, ◌/◌, ◌%◌, ◌≤◌, ◌<◌, ◌≡◌, ◌≢◌, refl, sym, ◌∙◌, ap, List, [], ◌∷◌, ◌++◌,
  arith, ltb, leb, ◌==◌, Bool-cases, inl, inr, product, true, All,
}
use carts.Sizing.{strip, collect, factors_of}

abbrev pub Divides : ℕ → ℕ → Type 0
Divides d n = (k : ℕ) × (n ≡ k * d)

-- No number from 2 up to `bound` divides n.
abbrev pub NoDivisor : ℕ → ℕ → Type 0
NoDivisor bound n = (d : ℕ) → 2 ≤ d → d < bound → ¬ Divides d n

abbrev pub IsPrime : ℕ → Type 0
IsPrime p = (2 ≤ p) × NoDivisor p p

product-append : (xs ys : List ℕ) → product (xs ++ ys) ≡ product xs * product ys
product-append [] ys = sym (one-mul (product ys))
product-append (x ∷ xs) ys =
    ap (λ (t : ℕ). x * t) (product-append xs ys) ∙ sym (mul_assoc x (product xs) (product ys))

product-snoc : (xs : List ℕ) (y : ℕ) → product (xs ++ (y ∷ [])) ≡ product xs * y
product-snoc xs y = product-append xs (y ∷ []) ∙ ap (λ (t : ℕ). product xs * t) (mul-one y)

All-snoc : (P : ℕ → Type 0) (xs : List ℕ) (y : ℕ) → All P xs → P y → All P (xs ++ (y ∷ []))
All-snoc P [] y h p = (p, tt)
All-snoc P (x ∷ xs) y h p = (h.0, All-snoc P xs y h.1 p)

exact_quotient : (r f : ℕ) → (r % f == 0) ≡ true → r ≡ r / f * f
exact_quotient r f h = let e : r % f ≡ 0 = ground arith in omega (arith, div-add-mod' r f)

mod-Divides : (d n : ℕ) → Divides d n → n % d ≡ 0
mod-Divides d n (k, e) = rw e (mul-mod_left k d)

Divides-trans : (a b c : ℕ) → Divides a b → Divides b c → Divides a c
Divides-trans a b c (k, e) (m, g) = (m * k, g ∙ ap (λ (t : ℕ). m * t) e ∙ sym (mul_assoc m k a))

strip-product :
    (fuel f r : ℕ) (acc : List ℕ)
    → product (strip fuel f r acc).0 * (strip fuel f r acc).1 ≡ product acc * r
unfolding strip
strip-product zero f r acc = refl
strip-product (suc fuel) f r acc = elim (Bool-cases (r % f == 0)) [
  | inl e ↦ rw e (strip-product fuel f (r / f) (acc ++ (f ∷ [])) ∙ regroup e)
  | inr e ↦ rw e
]
  where
    regroup : (r % f == 0) ≡ true → product (acc ++ (f ∷ [])) * (r / f) ≡ product acc * r
    regroup e =
        rw (product-snoc acc f)
          (omega (arith, ap (λ (t : ℕ). product acc * t) (exact_quotient r f e)))

quotient-Divides : (r f : ℕ) → (r % f == 0) ≡ true → Divides (r / f) r
quotient-Divides r f e = (f, exact_quotient r f e ∙ mul_comm (r / f) f)

quotient_pos : (r f : ℕ) → 0 < r → (r % f == 0) ≡ true → 0 < r / f
quotient_pos r f h e = grind (arith, exact_quotient r f e)

quotient-lt : (r f : ℕ) → 2 ≤ f → 0 < r → r / f < r
quotient-lt r f hf h = div-lt_self h hf

NoDivisor-Divides : (b n m : ℕ) → Divides m n → NoDivisor b n → NoDivisor b m
NoDivisor-Divides b n m h none_of d two lt div = none_of d two lt (Divides-trans d m n div h)

NoDivisor-suc : (f r : ℕ) → NoDivisor f r → r % f ≢ 0 → NoDivisor (f + 1) r
NoDivisor-suc f r h ne d two lt div = elim (Bool-cases (d == f)) [
  | inl e ↦ let same : d ≡ f = ground arith in ne (rw same at (mod-Divides d r div))
  | inr e ↦ h d two (ground arith) div
]

-- What the inner loop leaves divides what it was given, and is not 0.
strip-Divides :
    (fuel f r : ℕ) (acc : List ℕ)
    → 0 < r
    → Divides (strip fuel f r acc).1 r × (0 < (strip fuel f r acc).1)
unfolding strip
strip-Divides zero f r acc h = ((1, omega arith), h)
strip-Divides (suc fuel) f r acc h = elim (Bool-cases (r % f == 0)) [
  | inl e ↦
      let (divides, pos) = strip-Divides fuel f (r / f) (acc ++ (f ∷ [])) (quotient_pos r f h e) in
      rw e (Divides-trans _ _ _ divides (quotient-Divides r f e), pos)
  | inr e ↦ rw e ((1, omega arith), h)
]

-- The fuel `r` is enough for the inner loop: what it leaves is no multiple of the factor.
strip-ends :
    (fuel f r : ℕ) (acc : List ℕ) → 2 ≤ f → 0 < r → r ≤ fuel → (strip fuel f r acc).1 % f ≢ 0
unfolding strip
strip-ends zero f r acc hf h le = absurd (omega arith)
strip-ends (suc fuel) f r acc hf h le = elim (Bool-cases (r % f == 0)) [
  | inl e ↦ rw e (
      strip-ends fuel f (r / f) (acc ++ (f ∷ [])) hf (quotient_pos r f h e)
        (omega (arith, quotient-lt r f hf h)))
  | inr e ↦ rw e (ground arith)
]

-- A factor that the inner loop takes out is prime, if no smaller number divides what remains.
strip-IsPrime :
    (fuel f r : ℕ) (acc : List ℕ)
    → 2 ≤ f
    → NoDivisor f r
    → All IsPrime acc
    → All IsPrime (strip fuel f r acc).0
unfolding strip
strip-IsPrime zero f r acc hf none_of h = h
strip-IsPrime (suc fuel) f r acc hf none_of h = elim (Bool-cases (r % f == 0)) [
  | inl e ↦ rw e (
      strip-IsPrime fuel f (r / f) (acc ++ (f ∷ [])) hf
        (NoDivisor-Divides f r (r / f) (quotient-Divides r f e) none_of)
        (All-snoc IsPrime acc f h
          (hf, NoDivisor-Divides f r f (r / f, exact_quotient r f e) none_of)))
  | inr e ↦ rw e h
]

collect-product :
    (fuel f r : ℕ) (acc : List ℕ)
    → product (collect fuel f r acc).0 * (collect fuel f r acc).1 ≡ product acc * r
unfolding collect
collect-product zero f r acc = refl
collect-product (suc fuel) f r acc = elim (Bool-cases (leb (f * f) r)) [
  | inl e ↦
      let s = strip r f r acc in
      rw e (collect-product fuel (f + 1) s.1 s.0 ∙ strip-product r f r acc)
  | inr e ↦ rw e
]

-- The state of the outer loop.
record IsReduced (f r : ℕ) (acc : List ℕ) : Type 0 where
  candidate : 2 ≤ f
  positive : 0 < r
  coprime : NoDivisor f r
  primes : All IsPrime acc

strip-IsReduced :
    (f r : ℕ) (acc : List ℕ)
    → IsReduced f r acc
    → IsReduced (f + 1) (strip r f r acc).1 (strip r f r acc).0
strip-IsReduced f r acc h =
    let (divides, pos) = strip-Divides r f r acc h.positive in
    record {
      candidate = omega (arith, h.candidate);
      positive = pos;
      coprime =
          NoDivisor-suc f _ (NoDivisor-Divides f r _ divides h.coprime)
            (strip-ends r f r acc h.candidate h.positive (omega arith));
      primes = strip-IsPrime r f r acc h.candidate h.coprime h.primes;
    }

Divides-le : (d n : ℕ) → 0 < n → Divides d n → d ≤ n
Divides-le d n h (zero, e) = absurd (omega (arith, e))
Divides-le d n h (suc k, e) = grind (arith, e)

-- With fuel for every candidate up to r the outer loop ends by its test.
collect_ends :
    (fuel f r : ℕ) (acc : List ℕ)
    → r < fuel + f
    → IsReduced f r acc
    → (g : ℕ) × IsReduced g (collect fuel f r acc).1 (collect fuel f r acc).0
      × ((collect fuel f r acc).1 < g * g)
unfolding collect
collect_ends zero f r acc lt h = (f, h, grind (arith, h.candidate))
collect_ends (suc fuel) f r acc lt h = elim (Bool-cases (leb (f * f) r)) [
  | inl e ↦
      let (divides, pos) = strip-Divides r f r acc h.positive in
      rw e (
        collect_ends fuel (f + 1) _ _ (omega (arith, Divides-le _ r h.positive divides))
          (strip-IsReduced f r acc h))
  | inr e ↦ rw e (f, h, ground arith)
]

cofactor_small : (g k d : ℕ) → g ≤ d → k * d < g * g → k < g
cofactor_small g k d le lt = elim (Bool-cases (ltb k g)) [
  | inl b ↦ ground arith
  | inr b ↦ let big : g ≤ k = ground arith in absurd (omega (arith, mul-le-mul big le))
]

-- A number above 1 and below the square of a bound under which it has no divisor is prime.
IsPrime-below_square : (g r : ℕ) → NoDivisor g r → r < g * g → 1 < r → IsPrime r
IsPrime-below_square g r none_of lt one = (one, λ d two dr div. small d two dr div)
  where
    cofactor : (d k : ℕ) → 2 ≤ d → d < r → r ≡ k * d → g ≤ d → ⊥
    cofactor d zero two dr e le = omega (arith, e)
    cofactor d (suc zero) two dr e le = omega (arith, e)
    cofactor d (suc (suc k)) two dr e le =
        none_of (suc (suc k)) (omega arith) (cofactor_small g (suc (suc k)) d le (omega (arith, e)))
          (d, e ∙ mul_comm (suc (suc k)) d)

    small : (d : ℕ) → 2 ≤ d → d < r → ¬ Divides d r
    small d two dr (k, e) = elim (Bool-cases (ltb d g)) [
      | inl b ↦ none_of d two (ground arith) (k, e)
      | inr b ↦ cofactor d k two dr e (ground arith)
    ]

-- The factors of a positive number are primes whose product is the number.
pub factors_of-IsPrime : (n : ℕ) → 0 < n → All IsPrime (factors_of n) × (product (factors_of n) ≡ n)
unfolding factors_of
factors_of-IsPrime n h =
    let start : IsReduced 2 n [] = record {
      candidate = omega arith;
      positive = h;
      coprime = λ d two lt div. omega arith;
      primes = tt;
    } in
    let (g, state, below) = collect_ends n 2 n [] (omega arith) start in
    let found = collect n 2 n [] in
    elim (Bool-cases (ltb 1 found.1)) [
      | inl e ↦ rw e (
        All-snoc IsPrime found.0 found.1 state.primes
            (IsPrime-below_square g found.1 state.coprime below (ground arith)),
        product-snoc found.0 found.1 ∙ collect-product n 2 n [] ∙ one-mul n,
      )
      | inr e ↦
          let unit : found.1 ≡ 1 = ground (arith, state.positive) in
          rw e (
            state.primes,
            sym (mul-one (product found.0))
                ∙ ap (λ (t : ℕ). product found.0 * t) (sym unit)
                ∙ collect-product n 2 n []
                ∙ one-mul n,
          )
    ]
