-- ===== src/Time/Stored/Texts.antt =====
-- Labels and tokens as texts: what `strncpy`, `sanitizeLabel_`, the token loop and `%23[^;]` leave.
use flowio_waveshare_qwiic.Prelude.{
  ℕ, zero, suc, true, false, List, [], ◌∷◌, ◌++◌, ◌≡◌, ◌≤◌, ◌-◌, ◌==◌, refl, arith, length, All, ap,
  ◌∙◌, replicate, set, take,
}
use flowio_waveshare_qwiic.Time.Types.{Definition}
use flowio_waveshare_qwiic.Time.Table.{label_byte, sanitize_bytes, sanitize_label}
use flowio_waveshare_qwiic.Time.System.{label_of}
use flowio_waveshare_qwiic.Time.Stored.{text_of, printed_label, scan_set, split_token}

abbrev pub Letters : List ℕ → Type 0
Letters = All (λ c. label_byte c ≡ true)

-- A byte that does not end a token.
abbrev pub Inside : ℕ → Type 0
Inside c = (c == b';') ≡ false

pub take-short : (n : ℕ) (t : List ℕ) → length t ≤ n → take n t ≡ t
take-short zero [] h = refl
take-short zero (c ∷ t) h = absurd (omega arith)
take-short (suc n) [] h = refl
take-short (suc n) (c ∷ t) h = ap (λ r. c ∷ r) (take-short n t (omega arith))

text_of-padded : (t : List ℕ) (k : ℕ) → Letters t → text_of (t ++ replicate k 0) ≡ t
unfolding text_of
text_of-padded [] zero h = refl
text_of-padded [] (suc k) h = refl
text_of-padded (c ∷ t) k h = ground (arith, text_of-padded t k h.1)

sanitize-padded :
    (t : List ℕ) (k : ℕ) → Letters t → sanitize_bytes (t ++ replicate k 0) ≡ t ++ replicate k 0
unfolding sanitize_bytes
sanitize-padded [] zero h = refl
sanitize-padded [] (suc k) h = refl
sanitize-padded (c ∷ t) k h = ground (arith, sanitize-padded t k h.1)

set-padded :
    (t : List ℕ) (k i : ℕ) → length t ≤ i → set (t ++ replicate k 0) i 0 ≡ t ++ replicate k 0
set-padded [] zero i h = refl
set-padded [] (suc k) zero h = refl
set-padded [] (suc k) (suc i) h = ap (λ r. 0 ∷ r) (set-padded [] k i (omega arith))
set-padded (c ∷ t) k zero h = absurd (omega arith)
set-padded (c ∷ t) k (suc i) h = ap (λ r. c ∷ r) (set-padded t k i (omega arith))

text_of-label_of : (t : List ℕ) → Letters t → text_of (label_of t) ≡ t
unfolding label_of
text_of-label_of t h = text_of-padded t (24 - length t) h

-- A label that is clean is left as it is.
pub sanitize-label_of :
    (t : List ℕ) → Letters t → length t ≤ 23 → sanitize_label (label_of t) ≡ label_of t
unfolding sanitize_label label_of
sanitize-label_of t h short =
    ap (λ r. set r 23 0) (sanitize-padded t (24 - length t) h)
    ∙ set-padded t (24 - length t) 23 short

pub printed_label_lem :
    (d : Definition) (t : List ℕ)
    → d.label ≡ label_of t
    → Letters t
    → length t ≤ 23
    → printed_label d ≡ t
unfolding printed_label
printed_label_lem d t e h short =
    rw (e, text_of-label_of t h, take-short 23 t short, sanitize-label_of t h short)
      (text_of-label_of t h)

pub Inside-Letters : (t : List ℕ) → Letters t → All Inside t
Inside-Letters [] h = tt
Inside-Letters (c ∷ t) h = (ground arith, Inside-Letters t h.1)

pub scan_set-short : (k : ℕ) (t : List ℕ) → All Inside t → length t ≤ k → scan_set k t ≡ t
unfolding scan_set
scan_set-short zero [] h short = refl
scan_set-short zero (c ∷ t) h short = absurd (omega arith)
scan_set-short (suc k) [] h short = refl
scan_set-short (suc k) (c ∷ t) h short = ground (arith, scan_set-short k t h.1)

-- A token ends at the first `;`.
pub split_token-row :
    (row rest : List ℕ) → All Inside row → split_token (row ++ (b';' ∷ rest)) ≡ (row, rest)
unfolding split_token
split_token-row [] rest h = refl
split_token-row (c ∷ row) rest h = ground (arith, split_token-row row rest h.1)
