-- ===== src/Ui/Limits.antt =====
-- What holds of a reply whatever the providers do.
use flowio_waveshare_qwiic.Prelude.{
  ℕ, Bool, true, false, Option, none, some, ◌+◌, ◌-◌, ◌%◌, ◌≡◌, ◌≤◌, refl, ap, sym, ◌∙◌, ◌==◌, List,
  [], ◌∷◌, ◌++◌, inl, inr, if◌then◌else◌, length, length-append, arith, ltb, not, ◌||◌, subst,
  Bool-cases, Option-cases, ◌⊎◌,
}
use flowio_waveshare_qwiic.Ui.Types.{
  Value, not_found, Script, done, write, Writer, is_valid_runtime_ui_id, runtime_ui_module_id,
  runtime_ui_value_id,
}
use flowio_waveshare_qwiic.Ui.Writer.{write_value}
use flowio_waveshare_qwiic.Ui.Wire.{body, encode, decode_all}
use flowio_waveshare_qwiic.Ui.WireLaws.{
  encode_all, wired_all, decode_all-encode_all, encode_all-append,
}
use flowio_waveshare_qwiic.Ui.WriterLaws.{HasRoom, write_value-room, write_value-full}
use flowio_waveshare_qwiic.Ui.Service.{
  Registry, run_script, not_found_next, provider_for_module, read_one, read_from, Reply, new_writer,
  read_values, Provider, ask,
}

-- A writer that holds whole records within its capacity, and counts them modulo 256.
pub record Holds (capacity : ℕ) (w : Writer) : Type 0 where
  pub records : List (ℕ × Value)
  pub same : w.capacity ≡ capacity
  pub within : length w.bytes ≤ capacity
  pub whole : w.bytes ≡ encode_all records
  pub count : w.record_count ≡ length records % 256

write_value-Holds :
    (capacity id : ℕ) (v : Value) (w : Writer)
    → Holds capacity w
    → Holds capacity (write_value id v w).0
unfolding encode
write_value-Holds capacity id v w h =
    elim (Bool-cases
      (w.overflowed || (not w.has_out || ltb w.capacity (length w.bytes + 3 + length (body v))))) [
        | inl full ↦
            subst (λ p. Holds capacity p.0) (sym (write_value-full id v w full))
              (record {
                records = h.records;
                same = h.same;
                within = h.within;
                whole = h.whole;
                count = h.count;
              })
        | inr free ↦
            let room : HasRoom w (3 + length (body v)) = record {
              going = ground arith;
              present = ground arith;
              fits = ground arith;
            } in
            subst (λ p. Holds capacity p.0) (sym (write_value-room id v w room))
              (record {
                records = h.records ++ ((id, v) ∷ []);
                same = h.same;
                within = omega (arith, room.fits, h.same, length-append w.bytes (encode id v));
                whole =
                    ap (λ bs. bs ++ encode id v) h.whole ∙ sym (encode_all-append h.records id v);
                count = omega (arith, h.count, length-append h.records ((id, v) ∷ []));
              })
      ]

run_script-Holds :
    (capacity : ℕ) (q : Script) (w : Writer) → Holds capacity w → Holds capacity (run_script q w).0
unfolding run_script
run_script-Holds capacity (done ok) w h = h
run_script-Holds capacity (write id v next) w h =
    run_script-Holds capacity (next (write_value id v w).1) (write_value id v w).0
      (write_value-Holds capacity id v w h)

Holds-if :
    (capacity : ℕ) (b : Bool) (x y : Writer × Bool)
    → Holds capacity x.0
    → Holds capacity y.0
    → Holds capacity (if b then x else y).0
Holds-if capacity true x y hx hy = hx
Holds-if capacity false x y hx hy = hy

ask-Holds :
    (capacity id : ℕ) (p : Provider) (w : Writer) → Holds capacity w → Holds capacity (ask id p w).0
unfolding ask not_found_next
ask-Holds capacity id p w h =
    let ran = run_script (p (runtime_ui_value_id id)) w in
    let told = write_value id not_found ran.0 in
    let missing = not ran.1 || ran.0.record_count == w.record_count in
    let after = run_script-Holds capacity (p (runtime_ui_value_id id)) w h in
    let kept =
      Holds-if capacity missing told (ran.0, true)
        (write_value-Holds capacity id not_found ran.0 after) after in
    Holds-if capacity (not (if missing then told else (ran.0, true)).1) _ _ kept kept

read_one-Holds :
    (capacity : ℕ) (r : Registry) (id : ℕ) (w : Writer)
    → Holds capacity w
    → Holds capacity (read_one r id w).0
unfolding read_one not_found_next
read_one-Holds capacity r id w h =
    let told = write_value-Holds capacity id not_found w h in
    let after : Option Provider → Writer × Bool =
      λ o. elim o [ none ↦ not_found_next id w | some p ↦ ask id p w ] in
    Holds-if capacity (not (is_valid_runtime_ui_id id)) (not_found_next id w)
      (after (provider_for_module (runtime_ui_module_id id) r)) told
      (elim (Option-cases (provider_for_module (runtime_ui_module_id id) r)) [
        | inl gone ↦ subst (λ o. Holds capacity (after o).0) (sym gone) told
        | inr (p, found) ↦
            subst (λ o. Holds capacity (after o).0) (sym found) (ask-Holds capacity id p w h)
      ])

read_from-Holds :
    (capacity : ℕ) (r : Registry) (ids : List ℕ) (w : Writer)
    → Holds capacity w
    → Holds capacity (read_from r ids w).0
unfolding read_from
read_from-Holds capacity r [] w h = h
read_from-Holds capacity r (id ∷ ids) w h =
    let first = read_one-Holds capacity r id w h in
    Holds-if capacity (read_one r id w).1 (read_from r ids (read_one r id w).0) _
      (read_from-Holds capacity r ids (read_one r id w).0 first) first

-- A call of the writer that succeeds leaves it without overflow.
write_value-clean :
    (id : ℕ) (v : Value) (w : Writer)
    → (write_value id v w).1 ≡ true
    → (write_value id v w).0.overflowed ≡ false
write_value-clean id v w good =
    elim (Bool-cases
      (w.overflowed || (not w.has_out || ltb w.capacity (length w.bytes + 3 + length (body v))))) [
        | inl full ↦ absurd (ground (arith, write_value-full id v w full))
        | inr free ↦
            let room : HasRoom w (3 + length (body v)) = record {
              going = ground arith;
              present = ground arith;
              fits = ground arith;
            } in
            ground (arith, write_value-room id v w room, room.going)
      ]

ask-clean :
    (id : ℕ) (p : Provider) (w : Writer) → (ask id p w).1 ≡ true → (ask id p w).0.overflowed ≡ false
unfolding ask
ask-clean id p w good = ground arith

read_one-clean :
    (r : Registry) (id : ℕ) (w : Writer)
    → (read_one r id w).1 ≡ true
    → (read_one r id w).0.overflowed ≡ false
unfolding read_one not_found_next
read_one-clean r id w good = elim (Option-cases (provider_for_module (runtime_ui_module_id id) r)) [
  | inl gone ↦ ground (arith, gone, write_value-clean id not_found w)
  | inr (p, found) ↦ ground (arith, found, write_value-clean id not_found w, ask-clean id p w)
]

read_from-clean :
    (r : Registry) (ids : List ℕ) (w : Writer)
    → w.overflowed ≡ false
    → (read_from r ids w).1 ≡ true
    → (read_from r ids w).0.overflowed ≡ false
unfolding read_from
read_from-clean r [] w clean good = clean
read_from-clean r (id ∷ ids) w clean good =
    ground (arith, read_one-clean r id w, read_from-clean r ids (read_one r id w).0)

-- A reply within the buffer: a success with whole records after their count, or a failure without
-- bytes.
abbrev pub IsReply : ℕ → Reply → Type 0
IsReply capacity a =
    (a.out_len ≤ capacity)
    × (a.out_len ≡ length a.out)
    × (((a.ok ≡ false) × (a.out_len ≡ 0))
        ⊎ ((rs : List (ℕ × Value)) × (a.ok ≡ true)
            × (a.out ≡ (length rs % 256) ∷ encode_all rs)
            × (decode_all (length rs) (encode_all rs) ≡ some (wired_all rs))))

IsReply-if :
    (capacity : ℕ) (b : Bool) (x y : Reply)
    → (b ≡ true → IsReply capacity x)
    → (b ≡ false → IsReply capacity y)
    → IsReply capacity (if b then x else y)
IsReply-if capacity true x y hx hy = hx refl
IsReply-if capacity false x y hx hy = hy refl

-- Whatever the providers write, a reply lies within the buffer; one that succeeds is a count and
-- whole records, as many as the count says modulo 256, which read back as they were written; one
-- that fails reports no bytes.
pub read_values-IsReply :
    (r : Registry) (ids : List ℕ) (has_out : Bool) (capacity : ℕ)
    → IsReply capacity (read_values r ids has_out capacity)
unfolding read_values new_writer
read_values-IsReply r ids has_out capacity =
    let w0 = new_writer (capacity - 1) in
    let start : Holds (capacity - 1) w0 = record {
      records = [];
      same = refl;
      within = omega arith;
      whole = refl;
      count = refl;
    } in
    let h = read_from-Holds (capacity - 1) r ids w0 start in
    let clean = read_from-clean r ids w0 refl in
    IsReply-if capacity (not has_out || capacity == 0) _ _
      (λ e. (omega arith, refl, inl (refl, refl)))
      (λ usable.
        IsReply-if capacity (length ids == 0) _ _
          (λ e. (ground arith, refl, inr ([], refl, refl, decode_all-encode_all [])))
          (λ e.
            IsReply-if capacity (not (read_from r ids w0).1) _ _
              (λ e. (omega arith, refl, inl (refl, refl)))
              (λ e. (
                ground (arith, h.within),
                omega arith,
                inr (
                  h.records,
                  ground (arith, clean (ground arith)),
                  ground (arith, h.whole, h.count),
                  decode_all-encode_all h.records,
                ),
              ))))
