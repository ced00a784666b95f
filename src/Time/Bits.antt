-- ===== src/Time/Bits.antt =====
-- The bits of a mask under `set_bit`.
use flowio_waveshare_qwiic.Prelude.{
  ℕ, zero, suc, Bool, true, false, ◌≡◌, ◌/◌, ◌%◌, ◌^◌, ◌||◌, ◌==◌, refl, sym, ap, ◌∙◌, arith, bit,
  not, ◌&&◌, ◌≤◌,
}
use native.Mathlib.Nat.{pow-succ', div-div-eq-div-mul, zero-div}
use flowio_waveshare_qwiic.Time.Table.{set_bit, clear_bit}

odd : ℕ → Bool
odd q = q % 2 == 1

bit-odd : (m k : ℕ) → bit m k ≡ odd (m / 2 ^ k)
unfolding odd
bit-odd m k = refl

pub bit-zero : (k : ℕ) → bit 0 k ≡ false
unfolding odd
bit-zero k = bit-odd 0 k ∙ ap odd (zero-div (2 ^ k))

shift_suc : (m k : ℕ) → m / 2 ^ suc k ≡ m / 2 / 2 ^ k
shift_suc m k = ap (λ (d : ℕ). m / d) (pow-succ' 2 k) ∙ sym (div-div-eq-div-mul m 2 (2 ^ k))

bit-suc : (m k : ℕ) → bit m (suc k) ≡ bit (m / 2) k
bit-suc m k = bit-odd m (suc k) ∙ (ap odd (shift_suc m k) ∙ sym (bit-odd (m / 2) k))

set_bit-half : (m i : ℕ) → set_bit m (suc i) / 2 ≡ set_bit (m / 2) i
unfolding set_bit
set_bit-half m i = ground (arith, pow-succ' 2 i, bit-suc m i)

set_bit-parity : (m i : ℕ) → set_bit m (suc i) % 2 ≡ m % 2
unfolding set_bit
set_bit-parity m i = ground (arith, pow-succ' 2 i)

set_bit-zero : (m : ℕ) → (set_bit m 0 / 2 ≡ m / 2) × (set_bit m 0 % 2 ≡ 1)
unfolding set_bit
set_bit-zero m = ground arith

pub bit-set_bit : (i k m : ℕ) → bit (set_bit m i) k ≡ (i == k || bit m k)
bit-set_bit zero zero m = ground (arith, set_bit-zero m)
bit-set_bit zero (suc k) m =
    bit-suc (set_bit m 0) k
    ∙ (ap (λ (h : ℕ). bit h k) (set_bit-zero m).0 ∙ (sym (bit-suc m k) ∙ ground arith))
bit-set_bit (suc i) zero m = ground (arith, set_bit-parity m i)
bit-set_bit (suc i) (suc k) m =
    bit-suc (set_bit m (suc i)) k
    ∙ (ap (λ (h : ℕ). bit h k) (set_bit-half m i)
        ∙ (bit-set_bit i k (m / 2) ∙ ground (arith, bit-suc m k)))

-- A bit that is set stands for that much.
bit-le : (m i : ℕ) → bit m i ≡ true → 2 ^ i ≤ m
bit-le m zero h = ground arith
bit-le m (suc i) h = ground (arith, pow-succ' 2 i, bit-suc m i, bit-le (m / 2) i)

clear_bit-half : (m i : ℕ) → clear_bit m (suc i) / 2 ≡ clear_bit (m / 2) i
unfolding clear_bit
clear_bit-half m i = ground (arith, pow-succ' 2 i, bit-suc m i, bit-le (m / 2) i)

clear_bit-parity : (m i : ℕ) → clear_bit m (suc i) % 2 ≡ m % 2
unfolding clear_bit
clear_bit-parity m i = ground (arith, pow-succ' 2 i, bit-suc m i, bit-le (m / 2) i)

clear_bit-zero : (m : ℕ) → (clear_bit m 0 / 2 ≡ m / 2) × (clear_bit m 0 % 2 ≡ 0)
unfolding clear_bit
clear_bit-zero m = ground arith

pub bit-clear_bit : (i k m : ℕ) → bit (clear_bit m i) k ≡ (not (i == k) && bit m k)
bit-clear_bit zero zero m = ground (arith, clear_bit-zero m)
bit-clear_bit zero (suc k) m =
    bit-suc (clear_bit m 0) k
    ∙ (ap (λ (h : ℕ). bit h k) (clear_bit-zero m).0 ∙ (sym (bit-suc m k) ∙ ground arith))
bit-clear_bit (suc i) zero m = ground (arith, clear_bit-parity m i)
bit-clear_bit (suc i) (suc k) m =
    bit-suc (clear_bit m (suc i)) k
    ∙ (ap (λ (h : ℕ). bit h k) (clear_bit-half m i)
        ∙ (bit-clear_bit i k (m / 2) ∙ ground (arith, bit-suc m k)))
