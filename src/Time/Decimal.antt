-- ===== src/Time/Decimal.antt =====
-- The conversions `%u` and `%llu` of `snprintf` and `sscanf`, which store and read the schedule.
use flowio_waveshare_qwiic.Prelude.{
  ℕ, zero, suc, Bool, true, false, Option, none, some, List, [], ◌∷◌, ◌++◌, ◌≡◌, ◌≤◌, ◌<◌, ◌+◌, ◌-◌,
  ◌*◌, ◌/◌, ◌%◌, ◌^◌, ◌==◌, ◌&&◌, ◌||◌, ltb, leb, refl, arith, if◌then◌else◌, length, All, sym,
  subst, ◌∙◌, ap, Bool-cases, inl, inr,
}
use native.Mathlib.Nat.{pow-succ'}

abbrev pub is_digit : ℕ → Bool
is_digit c = leb b'0' c && leb c b'9'

-- The digits of `n`, the last one first, in front of `out`.
unfoldable digits : ℕ → ℕ → List ℕ → List ℕ
digits zero n out = out
digits (suc k) n out =
    let rest = digits k (n / 10) ((b'0' + n % 10) ∷ out) in
    if ltb n 10 then (b'0' + n % 10) ∷ out else rest

-- `%u` and `%llu` of `snprintf`: a number of 64 bits has at most 20 digits.
unfoldable pub print_number : ℕ → List ℕ
unfolding digits
print_number n = digits 20 n []

unfoldable read_digits : ℕ → List ℕ → ℕ × List ℕ
read_digits v [] = (v, [])
read_digits v (c ∷ cs) =
    let rest = read_digits (v * 10 + (c - b'0')) cs in if is_digit c then rest else (v, c ∷ cs)

-- What `strtoul` makes of the digits for a type of `w` bits.
abbrev limited : ℕ → Bool → ℕ → ℕ
limited w negative v =
    if leb (2 ^ w) v then 2 ^ w - 1 else if negative then (2 ^ w - v) % 2 ^ w else v

unfoldable scan_unsigned : ℕ → Bool → List ℕ → Option (ℕ × List ℕ)
unfolding read_digits
scan_unsigned w negative [] = none
scan_unsigned w negative (c ∷ cs) =
    if is_digit c
    then some (limited w negative (read_digits 0 (c ∷ cs)).0, (read_digits 0 (c ∷ cs)).1)
    else none

unfoldable scan_signed : ℕ → List ℕ → Option (ℕ × List ℕ)
unfolding scan_unsigned
scan_signed w [] = none
scan_signed w (c ∷ cs) =
    if c == b'-'
    then scan_unsigned w true cs
    else if c == b'+'
    then scan_unsigned w false cs
    else scan_unsigned w false (c ∷ cs)

-- The white space of `isspace`.
unfoldable skip_blank : List ℕ → List ℕ
skip_blank [] = []
skip_blank (c ∷ cs) =
    let rest = skip_blank cs in if c == b' ' || (leb 9 c && leb c 13) then rest else c ∷ cs

-- `%u` (`w` is 32) and `%llu` (64) of `sscanf`: the number and the text behind it.
unfoldable pub scan_number : ℕ → List ℕ → Option (ℕ × List ℕ)
unfolding scan_signed skip_blank
scan_number w p = scan_signed w (skip_blank p)

read-digits :
    (k n : ℕ) (out : List ℕ) → n < 10 ^ k → read_digits 0 (digits k n out) ≡ read_digits n out
unfolding digits read_digits
read-digits zero n out h = ground arith
read-digits (suc k) n out h =
    ground (arith, pow-succ' 10 k, read-digits k (n / 10) ((b'0' + n % 10) ∷ out))

-- Digits start with a digit.
pub data Starts : List ℕ → Type 0 where
  starts : (c : ℕ) (cs : List ℕ) → is_digit c ≡ true → Starts (c ∷ cs)

Starts-digits : (k n : ℕ) (out : List ℕ) → Starts out → Starts (digits k n out)
unfolding digits
Starts-digits zero n out s = s
Starts-digits (suc k) n out s = elim (Bool-cases (ltb n 10)) [
  | inl one ↦
      subst (λ xs. Starts xs) (ground (arith, one)) (starts (b'0' + n % 10) out (ground arith))
  | inr more ↦
      subst (λ xs. Starts xs) (ground (arith, more))
        (Starts-digits k (n / 10) _ (starts (b'0' + n % 10) out (ground arith)))
]

digits-append : (k n : ℕ) (out rest : List ℕ) → digits k n out ++ rest ≡ digits k n (out ++ rest)
unfolding digits
digits-append zero n out rest = refl
digits-append (suc k) n out rest =
    ground (arith, digits-append k (n / 10) ((b'0' + n % 10) ∷ out) rest)

read-stop :
    (n c : ℕ) (rest : List ℕ) → is_digit c ≡ false → read_digits n (c ∷ rest) ≡ (n, c ∷ rest)
unfolding read_digits
read-stop n c rest stop = ground (arith, stop)

Starts-number : (n : ℕ) (out : List ℕ) → Starts (digits 20 n out)
unfolding digits
Starts-number n out = elim (Bool-cases (ltb n 10)) [
  | inl one ↦
      subst (λ xs. Starts xs) (ground (arith, one)) (starts (b'0' + n % 10) out (ground arith))
  | inr more ↦
      subst (λ xs. Starts xs) (ground (arith, more))
        (Starts-digits 19 (n / 10) _ (starts (b'0' + n % 10) out (ground arith)))
]

pub Starts-print : (n : ℕ) (rest : List ℕ) → Starts (print_number n ++ rest)
unfolding print_number
Starts-print n rest =
    subst (λ xs. Starts xs) (sym (digits-append 20 n [] rest)) (Starts-number n rest)

-- In front of digits there is neither white space nor a sign.
scan-Starts :
    (w n : ℕ) (p rest : List ℕ)
    → n < 2 ^ w
    → Starts p
    → read_digits 0 p ≡ (n, rest)
    → scan_number w p ≡ some (n, rest)
unfolding scan_number scan_signed scan_unsigned skip_blank
scan-Starts w n _ rest fits (starts c cs digit) e = ground (arith, digit, e)

All-digits :
    (P : ℕ → Type 0) (k n : ℕ) (out : List ℕ)
    → ((d : ℕ) → d < 10 → P (b'0' + d))
    → All P out
    → All P (digits k n out)
unfolding digits
All-digits P zero n out h a = a
All-digits P (suc k) n out h a =
    let next : All P ((b'0' + n % 10) ∷ out) = (h (n % 10) (omega arith), a) in
    elim (Bool-cases (ltb n 10)) [
      | inl one ↦ subst (All P) {x = (b'0' + n % 10) ∷ out} (ground (arith, one)) next
      | inr more ↦
          subst (All P) (ground (arith, more))
            (All-digits P k (n / 10) ((b'0' + n % 10) ∷ out) h next)
    ]

-- A print is made of digits.
pub All-print :
    (P : ℕ → Type 0) (n : ℕ) → ((d : ℕ) → d < 10 → P (b'0' + d)) → All P (print_number n)
unfolding print_number
All-print P n h = All-digits P 20 n [] h tt

length-digits :
    (k n j : ℕ) (out : List ℕ) → n < 10 ^ suc j → length (digits k n out) ≤ suc j + length out
unfolding digits
length-digits zero n j out h = omega arith
length-digits (suc k) n zero out h = ground arith
length-digits (suc k) n (suc j) out h =
    ground (arith, pow-succ' 10 (suc j), length-digits k (n / 10) j ((b'0' + n % 10) ∷ out))

-- A number that its type holds is read back from its print, up to the byte behind it.
pub scan-print :
    (w n c : ℕ) (rest : List ℕ)
    → n < 2 ^ w
    → n < 10 ^ 20
    → is_digit c ≡ false
    → scan_number w (print_number n ++ (c ∷ rest)) ≡ some (n, c ∷ rest)
unfolding print_number
scan-print w n c rest fits short stop =
    ap (scan_number w) (digits-append 20 n [] (c ∷ rest))
    ∙ scan-Starts w n _ (c ∷ rest) fits (Starts-number n (c ∷ rest))
        (read-digits 20 n (c ∷ rest) short ∙ read-stop n c rest stop)

-- The print of a number is never longer than the largest one of its range.
pub length-print : (n j : ℕ) → n < 10 ^ suc j → length (print_number n) ≤ suc j
unfolding print_number
length-print n j h = omega (arith, length-digits 20 n j [] h)
