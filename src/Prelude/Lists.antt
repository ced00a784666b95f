-- ===== src/Prelude/Lists.antt =====
-- Lists measured and indexed by native numbers, under the library's names.
use Prim.Native.Nat.{ℕ, zero, suc, ◌+◌, ◌<◌}
use mathlib.Core.Path.{◌≡◌, refl, sym, ap, subst}
use mathlib.Core.Logic.{◌≢◌}
use mathlib.Core.List.{List, [], ◌∷◌, ◌++◌, map}
use mathlib.Core.Option.{Option, none, some, some-injective}
use native.Mathlib.Omega.{arith}

module _ {ℓ} {A : Type ℓ} where
  abbrev pub length : List A → ℕ
  length [] = 0
  length (x ∷ xs) = suc (length xs)

  abbrev pub get_elem? : List A → ℕ → Option A
  get_elem? [] i = none
  get_elem? (x ∷ xs) zero = some x
  get_elem? (x ∷ xs) (suc i) = get_elem? xs i

  -- A write out of bounds changes nothing.
  abbrev pub set : List A → ℕ → A → List A
  set [] i v = []
  set (x ∷ xs) zero v = v ∷ xs
  set (x ∷ xs) (suc i) v = x ∷ set xs i v

  abbrev pub replicate : ℕ → A → List A
  replicate zero a = []
  replicate (suc n) a = a ∷ replicate n a

  abbrev pub take : ℕ → List A → List A
  take zero xs = []
  take (suc n) [] = []
  take (suc n) (x ∷ xs) = x ∷ take n xs

  -- A property of every element.
  abbrev pub All {κ} : (A → Type κ) → List A → Type κ
  All P [] = Unit
  All P (x ∷ xs) = P x × All P xs

module _ {ℓ} {A : Type ℓ} where
  pub length-append : (xs ys : List A) → length (xs ++ ys) ≡ length xs + length ys
  length-append [] ys = omega arith
  length-append (x ∷ xs) ys = omega (arith, length-append xs ys)

  pub length-set : (xs : List A) (i : ℕ) (v : A) → length (set xs i v) ≡ length xs
  length-set [] i v = refl
  length-set (x ∷ xs) zero v = refl
  length-set (x ∷ xs) (suc i) v = ap suc (length-set xs i v)

  pub get_elem?-set_self :
      (xs : List A) (i : ℕ) (v : A) → i < length xs → get_elem? (set xs i v) i ≡ some v
  get_elem?-set_self [] i v h = elim h [ ]
  get_elem?-set_self (x ∷ xs) zero v h = refl
  get_elem?-set_self (x ∷ xs) (suc i) v h = get_elem?-set_self xs i v (omega arith)

  pub get_elem?-set_ne :
      (xs : List A) (i j : ℕ) (v : A) → i ≢ j → get_elem? (set xs i v) j ≡ get_elem? xs j
  get_elem?-set_ne [] i j v h = refl
  get_elem?-set_ne (x ∷ xs) zero zero v h = absurd (h refl)
  get_elem?-set_ne (x ∷ xs) zero (suc j) v h = refl
  get_elem?-set_ne (x ∷ xs) (suc i) zero v h = refl
  get_elem?-set_ne (x ∷ xs) (suc i) (suc j) v h = get_elem?-set_ne xs i j v (λ e. h (ap suc e))

  pub length-replicate : (n : ℕ) (a : A) → length (replicate n a) ≡ n
  length-replicate zero a = refl
  length-replicate (suc n) a = ap suc (length-replicate n a)

  pub All-append {κ} : (P : A → Type κ) (xs ys : List A) → All P xs → All P ys → All P (xs ++ ys)
  All-append P [] ys hx hy = hy
  All-append P (x ∷ xs) ys hx hy = (hx.0, All-append P xs ys hx.1 hy)

  pub get_elem?-lt : (xs : List A) (i : ℕ) (a : A) → get_elem? xs i ≡ some a → i < length xs
  get_elem?-lt [] i a e = absurd (cc)
  get_elem?-lt (x ∷ xs) zero a e = omega arith
  get_elem?-lt (x ∷ xs) (suc i) a e = omega (arith, get_elem?-lt xs i a e)

module _ {ℓ} {A : Type ℓ} where
  -- Two lists of one length, related element by element.
  abbrev pub All2 : (A → A → Type 0) → List A → List A → Type 0
  All2 R [] [] = Unit {0}
  All2 R (x ∷ xs) (y ∷ ys) = R x y × All2 R xs ys
  All2 R (x ∷ xs) [] = ⊥
  All2 R [] (y ∷ ys) = ⊥

module _ {ℓ} {A : Type ℓ} (R : A → A → Type 0) where
  pub All2-length : (xs ys : List A) → All2 R xs ys → length xs ≡ length ys
  All2-length [] [] h = refl
  All2-length [] (y ∷ ys) h = absurd h
  All2-length (x ∷ xs) [] h = absurd h
  All2-length (x ∷ xs) (y ∷ ys) h = ap suc (All2-length xs ys h.1)

  module _ (R_refl : (x : A) → R x x) where
    pub All2-refl : (xs : List A) → All2 R xs xs
    All2-refl [] = tt
    All2-refl (x ∷ xs) = (R_refl x, All2-refl xs)

    pub All2-set :
        (xs : List A) (i : ℕ) (x y : A) → get_elem? xs i ≡ some x → R x y → All2 R xs (set xs i y)
    All2-set [] i x y e h = tt
    All2-set (a ∷ xs) zero x y e h =
        (subst (λ z. R z y) (sym (some-injective _ _ e)) h, All2-refl xs)
    All2-set (a ∷ xs) (suc i) x y e h = (R_refl a, All2-set xs i x y e h)

  module _ (R_trans : (x y z : A) → R x y → R y z → R x z) where
    pub All2-trans : (xs ys zs : List A) → All2 R xs ys → All2 R ys zs → All2 R xs zs
    All2-trans [] [] zs h k = k
    All2-trans [] (y ∷ ys) zs h k = absurd h
    All2-trans (x ∷ xs) [] zs h k = absurd h
    All2-trans (x ∷ xs) (y ∷ ys) [] h k = absurd k
    All2-trans (x ∷ xs) (y ∷ ys) (z ∷ zs) h k = (R_trans x y z h.0 k.0, All2-trans xs ys zs h.1 k.1)

  pub All2-get :
      (xs ys : List A) (i : ℕ) (x : A)
      → All2 R xs ys
      → get_elem? xs i ≡ some x
      → (y : A) × (get_elem? ys i ≡ some y) × R x y
  All2-get [] ys i x h e = absurd (cc)
  All2-get (a ∷ xs) [] i x h e = absurd h
  All2-get (a ∷ xs) (b ∷ ys) zero x h e = (b, refl, subst (λ z. R z b) (some-injective _ _ e) h.0)
  All2-get (a ∷ xs) (b ∷ ys) (suc i) x h e = All2-get xs ys i x h.1 e

  pub All2-map : (f : A → A) → ((x : A) → R x (f x)) → (xs : List A) → All2 R xs (map f xs)
  All2-map f h [] = tt
  All2-map f h (x ∷ xs) = (h x, All2-map f h xs)

module _ {ℓ κ} {A : Type ℓ} (P : A → Type κ) where
  pub All-get : (xs : List A) (i : ℕ) (a : A) → All P xs → get_elem? xs i ≡ some a → P a
  All-get [] i a h e = absurd (cc)
  All-get (x ∷ xs) zero a h e = subst P (some-injective _ _ e) h.0
  All-get (x ∷ xs) (suc i) a h e = All-get xs i a h.1 e

  pub All-set : (xs : List A) (i : ℕ) (a : A) → All P xs → P a → All P (set xs i a)
  All-set [] i a h p = tt
  All-set (x ∷ xs) zero a h p = (p, h.1)
  All-set (x ∷ xs) (suc i) a h p = (h.0, All-set xs i a h.1 p)

pub get_elem?-some {ℓ} :
    {A : Type ℓ} (xs : List A) (k : ℕ) → k < length xs → (a : A) × (get_elem? xs k ≡ some a)
get_elem?-some [] k h = elim h [ ]
get_elem?-some (x ∷ xs) zero h = (x, refl)
get_elem?-some (x ∷ xs) (suc k) h = get_elem?-some xs k (omega arith)
