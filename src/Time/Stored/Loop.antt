-- ===== src/Time/Stored/Loop.antt =====
-- The loop of `loadScheduleFromBlob_` ends.
use flowio_waveshare_qwiic.Prelude.{
  ℕ, zero, suc, List, [], ◌∷◌, ◌≡◌, ◌≤◌, ◌-◌, ◌⊎◌, inl, inr, refl, arith, length, sym, subst, ◌∙◌,
  take,
}
use flowio_waveshare_qwiic.Time.Types.{Runtime}
use flowio_waveshare_qwiic.Time.Stored.{skip_separators, split_token, load_row, load_rows}
use flowio_waveshare_qwiic.Time.Stored.RoundTrip.{load_rows-nil}

length-skip : (p : List ℕ) → length (skip_separators p) ≤ length p
unfolding skip_separators
length-skip [] = omega arith
length-skip (c ∷ cs) = ground (arith, length-skip cs)

length-split : (p : List ℕ) → length (split_token p).1 ≤ length p - 1
unfolding split_token
length-split [] = omega arith
length-split (c ∷ []) = ground arith
length-split (c ∷ c' ∷ cs) = ground (arith, length-split (c' ∷ cs))

load_rows-empty :
    (n : ℕ) (p : List ℕ) (slots : List Runtime)
    → skip_separators p ≡ []
    → load_rows (suc n) p slots ≡ slots
unfolding load_rows
load_rows-empty n p slots e = ground (arith, e)

load_rows-token :
    (n : ℕ) (p : List ℕ) (slots : List Runtime) (c : ℕ) (cs : List ℕ)
    → skip_separators p ≡ c ∷ cs
    → load_rows (suc n) p slots
      ≡ load_rows n (split_token (c ∷ cs)).1 (load_row (take 159 (split_token (c ∷ cs)).0) slots)
unfolding load_rows
load_rows-token n p slots c cs e = ground (arith, e)

List-cases : (p : List ℕ) → (p ≡ []) ⊎ ((c : ℕ) × (cs : List ℕ) × (p ≡ c ∷ cs))
List-cases [] = inl refl
List-cases (c ∷ cs) = inr (c, cs, refl)

-- The loop ends: as many rounds as the text has bytes are enough, and more change nothing.
load_rows-enough :
    (n : ℕ) (p : List ℕ) (slots : List Runtime)
    → length p ≤ n
    → load_rows (suc n) p slots ≡ load_rows n p slots
load_rows-enough zero [] slots h = load_rows-nil 1 slots ∙ sym (load_rows-nil 0 slots)
load_rows-enough zero (c ∷ cs) slots h = absurd (omega arith)
load_rows-enough (suc n) p slots h = elim (List-cases (skip_separators p)) [
  | inl e ↦ load_rows-empty (suc n) p slots e ∙ sym (load_rows-empty n p slots e)
  | inr (c, cs, e) ↦
      let size : length (c ∷ cs) ≤ length p = subst (λ q. length q ≤ length p) e (length-skip p) in
      load_rows-token (suc n) p slots c cs e
      ∙ (load_rows-enough n _ _ (omega (arith, length-split (c ∷ cs)))
          ∙ sym (load_rows-token n p slots c cs e))
]
