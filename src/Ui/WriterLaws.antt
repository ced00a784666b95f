-- ===== src/Ui/WriterLaws.antt =====
-- What one write does: a whole record, or nothing.
use flowio_waveshare_qwiic.Prelude.{
  ℕ, Bool, true, false, ◌+◌, ◌/◌, ◌%◌, ◌≡◌, ◌≤◌, refl, ap, sym, ◌∙◌, List, [], ◌∷◌, ◌++◌,
  if◌then◌else◌, length, length-append, u8, arith, ltb, not, ◌||◌, subst,
}
use mathlib.Core.List.{append_assoc, append-nil}
use flowio_waveshare_qwiic.Ui.Types.{
  Value, not_found, unavailable, bool, int32, uint32, float32, enum, string, wire_type, Writer,
}
use flowio_waveshare_qwiic.Ui.Writer.{
  Call, ◌>>◌, append_u8, append_u16, append_u32, append_bytes, write_header, write_value,
  text_prefix, count_record,
}
use flowio_waveshare_qwiic.Ui.Wire.{body, encode, four_bytes}

-- A writer with room for so many bytes more.
pub record HasRoom (w : Writer) (n : ℕ) : Type 0 where
  pub going : w.overflowed ≡ false
  pub present : w.has_out ≡ true
  pub fits : length w.bytes + n ≤ w.capacity

abbrev extend : List ℕ → Writer → Writer
extend bs w = record w { bytes = w.bytes ++ bs }

append_u8_lem : (v : ℕ) (w : Writer) → HasRoom w 1 → append_u8 v w ≡ (extend (v ∷ []) w, true)
unfolding append_u8
append_u8_lem v w h = ground arith

extend-HasRoom :
    (bs : List ℕ) (w : Writer) (n : ℕ) → HasRoom w (length bs + n) → HasRoom (extend bs w) n
extend-HasRoom bs w n h = record {
  going = h.going;
  present = h.present;
  fits = omega (arith, h.fits, length-append w.bytes bs);
}

-- The calls that append the given bytes.
Appends : Call → List ℕ → Type 0
Appends a bs = (w : Writer) → HasRoom w (length bs) → a w ≡ (extend bs w, true)

extend-extend : (cs bs : List ℕ) (w : Writer) → extend bs (extend cs w) ≡ extend (cs ++ bs) w
extend-extend cs bs w = ap (λ (k : List ℕ). record w { bytes = k }) (append_assoc w.bytes cs bs)

Appends-then :
    (a b : Call) (cs bs : List ℕ) → Appends a cs → Appends b bs → Appends (a >> b) (cs ++ bs)
unfolding Appends
Appends-then a b cs bs p q w h =
    let room : HasRoom w (length cs + length bs) = subst (HasRoom w) (length-append cs bs) h in
    let first : HasRoom w (length cs) = record {
      going = h.going;
      present = h.present;
      fits = omega (arith, room.fits);
    } in
    ap (λ (r : Writer × Bool). if r.1 then b r.0 else (r.0, false)) (p w first)
    ∙ (q (extend cs w) (extend-HasRoom cs w (length bs) room)
        ∙ ap (λ (u : Writer). (u, true)) (extend-extend cs bs w))

Appends-append_u8 : (v : ℕ) → Appends (append_u8 v) (v ∷ [])
unfolding Appends
Appends-append_u8 v w h = append_u8_lem v w h

Appends-append_u32 : (v : ℕ) → Appends (append_u32 v) (four_bytes v)
unfolding append_u32 four_bytes
Appends-append_u32 v = Appends-then (append_u8 (v % 256)) _ (v % 256 ∷ []) _ (Appends-append_u8 _) (
    Appends-then (append_u8 (v / 256 % 256)) _ (v / 256 % 256 ∷ []) _ (Appends-append_u8 _) (
      Appends-then (append_u8 (v / 65536 % 256)) _ (v / 65536 % 256 ∷ []) _ (Appends-append_u8 _)
        (Appends-append_u8 _)))

Appends-append_bytes : (cs : List ℕ) → Appends (append_bytes cs) cs
unfolding Appends append_bytes
Appends-append_bytes cs w h = ground (arith, h.going, h.present, h.fits)

-- The bytes of a record's body are appended by the calls after the header.
finish : Value → Call
finish not_found w = (w, true)
finish unavailable w = (w, true)
finish (bool b) w = append_u8 (if b then 1 else 0) w
finish (int32 n) w = append_u32 n w
finish (uint32 n) w = append_u32 n w
finish (float32 n) w = append_u32 n w
finish (enum n) w = append_u8 (u8 n) w
finish (string cs) w =
    (append_u8 (u8 (length (text_prefix 255 cs))) >> append_bytes (text_prefix 255 cs)) w

append_none : (w : Writer) → ◌≡◌ {A = Writer × Bool} (w, true) (extend [] w, true)
append_none w = ap (λ (k : List ℕ). (record w { bytes = k }, true)) (sym (append-nil w.bytes))

then_nothing : (p : Writer × Bool) → p ≡ (if p.1 then (p.0, true) else (p.0, false))
then_nothing (w, true) = refl
then_nothing (w, false) = refl

Appends-finish : (v : Value) → Appends (finish v) (body v)
unfolding finish body Appends
Appends-finish not_found w h = append_none w
Appends-finish unavailable w h = append_none w
Appends-finish (bool b) w h = Appends-append_u8 _ w h
Appends-finish (int32 n) w h = Appends-append_u32 n w h
Appends-finish (uint32 n) w h = Appends-append_u32 n w h
Appends-finish (float32 n) w h = Appends-append_u32 n w h
Appends-finish (enum n) w h = Appends-append_u8 _ w h
Appends-finish (string cs) w h =
    Appends-then (append_u8 (u8 (length (text_prefix 255 cs)))) (append_bytes (text_prefix 255 cs))
      _ _ (Appends-append_u8 _) (Appends-append_bytes (text_prefix 255 cs)) w h

write_value-eq :
    (id : ℕ) (v : Value) (w : Writer)
    → write_value id v w ≡ (write_header id (wire_type v) (length (body v)) >> finish v) w
unfolding write_value finish body wire_type
write_value-eq id not_found w = then_nothing (write_header id 0 0 w)
write_value-eq id unavailable w = then_nothing (write_header id 1 0 w)
write_value-eq id (bool b) w = refl
write_value-eq id (int32 n) w = refl
write_value-eq id (uint32 n) w = refl
write_value-eq id (float32 n) w = refl
write_value-eq id (enum n) w = refl
write_value-eq id (string cs) w =
    ap (λ (k : ℕ). (write_header id 7 k >> finish (string cs)) w) (omega arith)

wire_type-lt : (v : Value) → u8 (wire_type v) ≡ wire_type v
unfolding wire_type
wire_type-lt v = ground arith

abbrev pub header : ℕ → Value → List ℕ
header id v = (id % 256) ∷ (id / 256 % 256) ∷ wire_type v ∷ []

abbrev counted : Writer → Writer
counted w = record w { record_count = u8 (w.record_count + 1) }

append_header :
    (id : ℕ) (v : Value) → Appends (append_u16 id >> append_u8 (u8 (wire_type v))) (header id v)
unfolding append_u16
append_header id v =
    let low = id % 256 in
    let high = id / 256 % 256 in
    Appends-then (append_u16 id) (append_u8 (u8 (wire_type v))) (low ∷ high ∷ []) (wire_type v ∷ [])
      (Appends-then (append_u8 low) (append_u8 high) (low ∷ []) (high ∷ []) (Appends-append_u8 low)
        (Appends-append_u8 high))
      (subst (λ (t : ℕ). Appends (append_u8 (u8 (wire_type v))) (t ∷ [])) (wire_type-lt v)
        (Appends-append_u8 _))

write_header-room :
    (id : ℕ) (v : Value) (w : Writer)
    → HasRoom w (3 + length (body v))
    → write_header id (wire_type v) (length (body v)) w ≡ (counted (extend (header id v) w), true)
unfolding write_header count_record Appends
write_header-room id v w h =
    let room : HasRoom w 3 = record {
      going = h.going;
      present = h.present;
      fits = omega (arith, h.fits);
    } in
    let first : (append_u16 id >> append_u8 (u8 (wire_type v))) w ≡ (extend (header id v) w, true) =
      append_header id v w room in
    ground (arith, first, h.going, h.present, h.fits)

-- What the writer holds after a record.
abbrev pub accept : ℕ → Value → Writer → Writer
accept id v w = counted (extend (encode id v) w)

pub write_value-room :
    (id : ℕ) (v : Value) (w : Writer)
    → HasRoom w (3 + length (body v))
    → write_value id v w ≡ (accept id v w, true)
unfolding encode Appends
write_value-room id v w h =
    write_value-eq id v w
    ∙ (ap (λ (r : Writer × Bool). if r.1 then finish v r.0 else (r.0, false))
          (write_header-room id v w h)
        ∙ (Appends-finish v (counted (extend (header id v) w)) (record {
          going = h.going;
          present = h.present;
          fits = omega (arith, h.fits, length-append w.bytes (header id v));
        })
            ∙ ap (λ (k : List ℕ). (counted (record w { bytes = k }), true))
                (append_assoc w.bytes (header id v) (body v))))

-- Where a record does not fit, nothing is written and the writer has overflowed.
pub write_value-full :
    (id : ℕ) (v : Value) (w : Writer)
    → (w.overflowed || (not w.has_out || ltb w.capacity (length w.bytes + 3 + length (body v))))
      ≡ true
    → write_value id v w ≡ (record w { overflowed = true }, false)
unfolding write_header
write_value-full id v w h = write_value-eq id v w ∙ ground arith
