-- ===== src/Ui/Wire.antt =====
-- The wire format on its own: the bytes of a record, and a reader of such bytes.
use flowio_waveshare_qwiic.Prelude.{
  ℕ, zero, suc, Option, none, some, ◌+◌, ◌*◌, ◌/◌, ◌%◌, ◌==◌, List, [], ◌∷◌, if◌then◌else◌, length,
  u8, u32,
}
use flowio_waveshare_qwiic.Ui.Types.{
  Value, not_found, unavailable, bool, int32, uint32, float32, enum, string, wire_type,
}
use flowio_waveshare_qwiic.Ui.Writer.{text_prefix}

-- A value as the format can carry it.
unfoldable pub wired : Value → Value
wired not_found = not_found
wired unavailable = unavailable
wired (bool b) = bool b
wired (int32 n) = int32 (u32 n)
wired (uint32 n) = uint32 (u32 n)
wired (float32 n) = float32 (u32 n)
wired (enum n) = enum (u8 n)
wired (string cs) = string (text_prefix 255 cs)

unfoldable pub four_bytes : ℕ → List ℕ
four_bytes n = (n % 256) ∷ (n / 256 % 256) ∷ (n / 65536 % 256) ∷ (n / 16777216 % 256) ∷ []

-- The bytes after the header.
unfoldable pub body : Value → List ℕ
unfolding four_bytes
body not_found = []
body unavailable = []
body (bool b) = (if b then 1 else 0) ∷ []
body (int32 n) = four_bytes n
body (uint32 n) = four_bytes n
body (float32 n) = four_bytes n
body (enum n) = u8 n ∷ []
body (string cs) = u8 (length (text_prefix 255 cs)) ∷ text_prefix 255 cs

-- A record: the id with its low byte first, the type, and the body.
unfoldable pub encode : ℕ → Value → List ℕ
encode id v = (id % 256) ∷ (id / 256 % 256) ∷ wire_type v ∷ body v

-- A reader: what it has read, and the bytes that are left.
abbrev pub Read : Type 0 → Type 0
Read A = List ℕ → Option (A × List ℕ)

infixl 5 ◌>>=◌
abbrev pub ◌>>=◌ : {A B : Type 0} → Read A → (A → Read B) → Read B
◌>>=◌ m f bs = elim (m bs) [ none ↦ none | some (a, rest) ↦ f a rest ]

abbrev pub give : {A : Type 0} → A → Read A
give a bs = some (a, bs)

unfoldable pub read_byte : Read ℕ
read_byte [] = none
read_byte (b ∷ bs) = some (b, bs)

unfoldable pub read_u32 : Read ℕ
read_u32 = do
  a ← read_byte
  b ← read_byte
  c ← read_byte
  d ← read_byte
  give (a + 256 * b + 65536 * c + 16777216 * d)

unfoldable pub read_bytes : ℕ → Read (List ℕ)
read_bytes zero bs = some ([], bs)
read_bytes (suc n) [] = none
read_bytes (suc n) (b ∷ bs) = elim (read_bytes n bs) [
  | none ↦ none
  | some (cs, rest) ↦ some (b ∷ cs, rest)
]

-- The body of a value of the given type.
unfoldable pub read_body : ℕ → Read Value
read_body type =
    if type == 0
    then give not_found
    else if type == 1
    then give unavailable
    else if type == 2
    then (read_byte >>= λ b. give (bool (b == 1)))
    else if type == 3
    then (read_u32 >>= λ n. give (int32 n))
    else if type == 4
    then (read_u32 >>= λ n. give (uint32 n))
    else if type == 5
    then (read_u32 >>= λ n. give (float32 n))
    else if type == 6
    then (read_byte >>= λ n. give (enum n))
    else if type == 7
    then (read_byte >>= λ n. read_bytes n >>= λ cs. give (string cs))
    else λ bs. none

unfoldable pub decode : List ℕ → Option ((ℕ × Value) × List ℕ)
decode = do
  lo ← read_byte
  hi ← read_byte
  type ← read_byte
  v ← read_body type
  give (lo + 256 * hi, v)

-- The given number of records, and nothing after them.
unfoldable pub decode_all : ℕ → List ℕ → Option (List (ℕ × Value))
decode_all zero [] = some []
decode_all zero (b ∷ bs) = none
decode_all (suc n) bs = elim (decode bs) [
  | none ↦ none
  | some (r, rest) ↦ elim (decode_all n rest) [ none ↦ none | some rs ↦ some (r ∷ rs) ]
]
