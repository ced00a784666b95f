-- ===== src/Ui/WireLaws.antt =====
-- The reader against the writer's format.
use flowio_waveshare_qwiic.Prelude.{
  ℕ, zero, suc, some, ◌+◌, ◌*◌, ◌/◌, ◌%◌, ◌≡◌, ◌≤◌, refl, ap, sym, ◌∙◌, List, [], ◌∷◌, ◌++◌, map,
  length, u8, u16, u32, arith,
}
use mathlib.Core.List.{append_assoc, append-nil}
use flowio_waveshare_qwiic.Ui.Types.{
  Value, not_found, unavailable, bool, int32, uint32, float32, enum, string, wire_type,
}
use flowio_waveshare_qwiic.Ui.Writer.{text_prefix}
use flowio_waveshare_qwiic.Ui.Wire.{
  wired, four_bytes, body, encode, read_byte, read_u32, read_bytes, read_body, decode, decode_all,
  Read, ◌>>=◌, give,
}

pub length-text_prefix : (n : ℕ) (cs : List ℕ) → length (text_prefix n cs) ≤ n
unfolding text_prefix
length-text_prefix zero cs = omega arith
length-text_prefix (suc n) [] = omega arith
length-text_prefix (suc n) (c ∷ cs) = ground (arith, length-text_prefix n cs)

read_bytes-append : (cs rest : List ℕ) → read_bytes (length cs) (cs ++ rest) ≡ some (cs, rest)
unfolding read_bytes
read_bytes-append [] rest = refl
read_bytes-append (c ∷ cs) rest = rw (read_bytes-append cs rest) refl

read_u32-bytes : (n : ℕ) (rest : List ℕ) → read_u32 (four_bytes n ++ rest) ≡ some (u32 n, rest)
unfolding read_u32 read_byte four_bytes
read_u32-bytes n rest = ap (λ (k : ℕ). some (k, rest)) (omega arith)

>>=-some :
    {A B : Type 0} (m : Read A) (f : A → Read B) (bs : List ℕ) {a : A} {rest : List ℕ}
    → m bs ≡ some (a, rest)
    → (m >>= f) bs ≡ f a rest
>>=-some m f bs h = rw (h, ◌>>=◌) refl

length-text : (cs : List ℕ) → u8 (length (text_prefix 255 cs)) ≡ length (text_prefix 255 cs)
length-text cs = omega (arith, length-text_prefix 255 cs)

read_body-append :
    (v : Value) (rest : List ℕ) → read_body (wire_type v) (body v ++ rest) ≡ some (wired v, rest)
unfolding read_body body wire_type wired read_byte
read_body-append not_found rest = refl
read_body-append unavailable rest = refl
read_body-append (bool b) rest = ground arith
read_body-append (int32 n) rest =
    >>=-some read_u32 (λ k. give (int32 k)) (four_bytes n ++ rest) (read_u32-bytes n rest)
read_body-append (uint32 n) rest =
    >>=-some read_u32 (λ k. give (uint32 k)) (four_bytes n ++ rest) (read_u32-bytes n rest)
read_body-append (float32 n) rest =
    >>=-some read_u32 (λ k. give (float32 k)) (four_bytes n ++ rest) (read_u32-bytes n rest)
read_body-append (enum n) rest = refl
read_body-append (string cs) rest =
    let text = text_prefix 255 cs in
    ap (λ (k : ℕ). (read_bytes k >>= λ t. give (string t)) (text ++ rest)) (length-text cs)
    ∙ >>=-some (read_bytes (length text)) (λ t. give (string t)) (text ++ rest)
        (read_bytes-append text rest)

-- A record is read back as it was written, whatever follows it.
decode-encode :
    (id : ℕ) (v : Value) (rest : List ℕ)
    → decode (encode id v ++ rest) ≡ some ((u16 id, wired v), rest)
unfolding decode encode read_byte
decode-encode id v rest =
    >>=-some (read_body (wire_type v)) (λ u. give (id % 256 + 256 * (id / 256 % 256), u))
      (body v ++ rest) (read_body-append v rest)
    ∙ ap (λ (k : ℕ). some ((k, wired v), rest)) (omega arith)

-- The bytes of a sequence of records.
abbrev pub encode_all : List (ℕ × Value) → List ℕ
encode_all [] = []
encode_all ((id, v) ∷ rs) = encode id v ++ encode_all rs

abbrev pub wired_all : List (ℕ × Value) → List (ℕ × Value)
wired_all = map (λ r. (u16 r.0, wired r.1))

pub decode_all-encode_all :
    (rs : List (ℕ × Value)) → decode_all (length rs) (encode_all rs) ≡ some (wired_all rs)
unfolding decode_all
decode_all-encode_all [] = refl
decode_all-encode_all ((id, v) ∷ rs) =
    ground (arith, decode-encode id v (encode_all rs), decode_all-encode_all rs)

pub encode_all-append :
    (rs : List (ℕ × Value)) (id : ℕ) (v : Value)
    → encode_all (rs ++ ((id, v) ∷ [])) ≡ encode_all rs ++ encode id v
encode_all-append [] id v = append-nil (encode id v)
encode_all-append ((j, u) ∷ rs) id v =
    ap (λ bs. encode j u ++ bs) (encode_all-append rs id v)
    ∙ sym (append_assoc (encode j u) (encode_all rs) (encode id v))
