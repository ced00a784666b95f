-- ===== src/Ui/Writer.antt =====
-- `RuntimeUiBinaryWriter`: every append and every write.
use flowio_waveshare_qwiic.Prelude.{
  ℕ, zero, suc, Bool, true, false, ◌+◌, ◌/◌, ◌%◌, ◌||◌, not, ltb, leb, ◌==◌, List, [], ◌∷◌, ◌++◌,
  if◌then◌else◌, length, u8,
}
use flowio_waveshare_qwiic.Ui.Types.{
  Value, not_found, unavailable, bool, int32, uint32, float32, enum, string, Writer,
}

-- A call of the writer: its state afterwards and its answer.
abbrev pub Call : Type 0
Call = Writer → Writer × Bool

-- `a() && b()`
infixl 5 ◌>>◌
abbrev pub ◌>>◌ : Call → Call → Call
◌>>◌ a b w = let (w', ok) = a w in if ok then b w' else (w', false)

-- `appendU8_`
unfoldable pub append_u8 : ℕ → Call
append_u8 v w =
    if w.overflowed || (not w.has_out || leb w.capacity (length w.bytes))
    then (record w { overflowed = true }, false)
    else (record w { bytes = w.bytes ++ (v ∷ []) }, true)

-- `appendU16_`
unfoldable pub append_u16 : ℕ → Call
append_u16 v = append_u8 (v % 256) >> append_u8 (v / 256 % 256)

-- `appendU32_`
unfoldable pub append_u32 : ℕ → Call
append_u32 v =
    append_u8 (v % 256)
    >> (append_u8 (v / 256 % 256)
        >> (append_u8 (v / 65536 % 256) >> append_u8 (v / 16777216 % 256)))

-- `appendBytes_`
unfoldable pub append_bytes : List ℕ → Call
append_bytes cs w =
    if w.overflowed || (not w.has_out || ltb w.capacity (length w.bytes + length cs))
    then (record w { overflowed = true }, false)
    else (record w { bytes = w.bytes ++ cs }, true)

unfoldable pub count_record : Call
count_record w = (record w { record_count = u8 (w.record_count + 1) }, true)

-- `writeHeader_`
unfoldable pub write_header : ℕ → ℕ → ℕ → Call
write_header id type payload w =
    if w.overflowed || (not w.has_out || ltb w.capacity (length w.bytes + 3 + payload))
    then (record w { overflowed = true }, false)
    else (append_u16 id >> (append_u8 (u8 type) >> count_record)) w

-- `strnlen(value, max)` with the bytes it covers.
unfoldable pub text_prefix : ℕ → List ℕ → List ℕ
text_prefix zero cs = []
text_prefix (suc n) [] = []
text_prefix (suc n) (c ∷ cs) = let rest = text_prefix n cs in if c == 0 then [] else c ∷ rest

-- `writeNotFound`, `writeUnavailable`, `writeBool`, `writeI32`, `writeU32`, `writeF32`,
-- `writeEnum` and `writeString`.
unfoldable pub write_value : ℕ → Value → Call
write_value id not_found = write_header id 0 0
write_value id unavailable = write_header id 1 0
write_value id (bool b) = write_header id 2 1 >> append_u8 (if b then 1 else 0)
write_value id (int32 n) = write_header id 3 4 >> append_u32 n
write_value id (uint32 n) = write_header id 4 4 >> append_u32 n
write_value id (float32 n) = write_header id 5 4 >> append_u32 n
write_value id (enum n) = write_header id 6 1 >> append_u8 (u8 n)
write_value id (string cs) =
    let text = text_prefix 255 cs in
    write_header id 7 (1 + length text) >> (append_u8 (u8 (length text)) >> append_bytes text)
