-- ===== src/Floats.antt =====
-- Single-precision floats: the operations of the machine that the modules use, as a parameter.
-- Nothing is assumed of them here; a theorem that needs a law takes it as a hypothesis.
use flowio_waveshare_qwiic.Prelude.{ℕ, Bool, ◌+◌, ◌-◌, ◌*◌, ◌/◌, ◌^◌, true, ltb, leb, ◌==◌}

pub record FloatOps : Type 1 where
  pub F : Type 0
  -- a < b, a <= b, a == b
  pub flt : F → F → Bool
  pub fle : F → F → Bool
  pub feq : F → F → Bool
  pub fadd : F → F → F
  pub fsub : F → F → F
  pub fmul : F → F → F
  pub fdiv : F → F → F
  -- `isfinite`
  pub finite : F → Bool
  -- the conversion of an unsigned integer, and the literal m / 10 ^ k
  pub of_ℕ : ℕ → F
  pub lit : ℕ → ℕ → F
  -- the conversion to an unsigned integer, and `lroundf`
  pub to_ℕ : F → ℕ
  pub round : F → ℕ

-- Thousandths without a sign, for tests.
abbrev pub thousandths : FloatOps
thousandths = record {
  F = ℕ;
  flt = ltb;
  fle = leb;
  feq = ◌==◌;
  fadd = ◌+◌;
  fsub = ◌-◌;
  fmul = λ a b. a * b / 1000;
  fdiv = λ a b. a * 1000 / b;
  finite = λ a. true;
  of_ℕ = λ n. n * 1000;
  lit = λ m k. m * 1000 / 10 ^ k;
  to_ℕ = λ a. a / 1000;
  round = λ a. (a + 500) / 1000;
}
