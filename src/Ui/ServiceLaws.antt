-- ===== src/Ui/ServiceLaws.antt =====
-- `readValues` with providers that each write one record of the value asked for.
use flowio_waveshare_qwiic.Prelude.{
  ℕ, Bool, true, false, none, some, ◌+◌, ◌≡◌, ◌≤◌, ◌<◌, refl, ap, ◌∙◌, ◌==◌, List, [], ◌∷◌, inl,
  inr, if◌then◌else◌, length, length-append, arith, leb, not, ◌||◌, Bool-cases, Option-cases, ◌⊎◌,
  All, leb→le,
}
use flowio_waveshare_qwiic.Ui.Types.{
  Value, not_found, done, write, Writer, make_runtime_ui_id, runtime_ui_module_id,
  runtime_ui_value_id, is_valid_runtime_ui_id,
}
use flowio_waveshare_qwiic.Ui.Writer.{write_value}
use flowio_waveshare_qwiic.Ui.Wire.{body, encode}
use flowio_waveshare_qwiic.Ui.WireLaws.{encode_all}
use flowio_waveshare_qwiic.Ui.WriterLaws.{HasRoom, accept, write_value-room, write_value-full}
use flowio_waveshare_qwiic.Ui.Service.{
  Provider, Registry, provider_for_module, run_script, not_found_next, read_one, ask, read_from,
}

-- An identifier is made of the module and the value that it is split into.
make-split :
    (id : ℕ)
    → is_valid_runtime_ui_id id ≡ true
    → id < 25600
    → make_runtime_ui_id (runtime_ui_module_id id) (runtime_ui_value_id id) ≡ id
unfolding make_runtime_ui_id runtime_ui_module_id runtime_ui_value_id is_valid_runtime_ui_id
make-split id v h = omega arith

-- Every provider writes its value of the id asked for, and returns the writer's answer.
abbrev pub IsSingle : Registry → (ℕ → ℕ → Value) → Type 0
IsSingle r value =
    (m : ℕ) (p : Provider)
    → r m ≡ some p
    → (k : ℕ) → p k ≡ write (make_runtime_ui_id m k) (value m k) (λ ok. done ok)

-- What is to be answered for an id.
unfoldable pub answer : Registry → (ℕ → ℕ → Value) → ℕ → Value
answer r value id =
    if not (is_valid_runtime_ui_id id)
    then not_found
    else elim (provider_for_module (runtime_ui_module_id id) r) [
      | none ↦ not_found
      | some p ↦ value (runtime_ui_module_id id) (runtime_ui_value_id id)
    ]

unfoldable pub answers : Registry → (ℕ → ℕ → Value) → List ℕ → List (ℕ × Value)
answers r value [] = []
answers r value (id ∷ ids) = (id, answer r value id) ∷ answers r value ids

registered : (r : Registry) (m : ℕ) (p : Provider) → provider_for_module m r ≡ some p → r m ≡ some p
unfolding provider_for_module
registered r m p h = ground arith

-- What `readValues` does with a provider's answer.
checked : ℕ → Writer → Writer × Bool → Writer × Bool
checked id w (w1, ok) =
    let (w2, kept) =
      if not ok || w1.record_count == w.record_count then not_found_next id w1 else (w1, true) in
    if not kept then (w2, false) else (w2, not w2.overflowed)

pub length-encode : (id : ℕ) (v : Value) → length (encode id v) ≡ 3 + length (body v)
unfolding encode
length-encode id v = omega arith

module _ (r : Registry) (value : ℕ → ℕ → Value) (single : IsSingle r value) where
  -- A provider that is found makes one call of the writer.
  run_script-single :
      (id : ℕ) (p : Provider) (w : Writer)
      → id < 25600
      → is_valid_runtime_ui_id id ≡ true
      → provider_for_module (runtime_ui_module_id id) r ≡ some p
      → run_script (p (runtime_ui_value_id id)) w
        ≡ write_value id (value (runtime_ui_module_id id) (runtime_ui_value_id id)) w
  unfolding run_script
  run_script-single id p w h good found =
      let m = runtime_ui_module_id id in
      let k = runtime_ui_value_id id in
      ap (λ q. run_script q w) (single m p (registered r m p found) k)
      ∙ ap (λ (j : ℕ). write_value j (value m k) w) (make-split id good h)

  -- The three ways of a round are one: the answer is written.
  read_one-answer :
      (id : ℕ) (w : Writer)
      → id < 25600
      → (read_one r id w ≡ write_value id (answer r value id) w)
        ⊎ (read_one r id w ≡ checked id w (write_value id (answer r value id) w))
  unfolding read_one ask answer not_found_next checked
  read_one-answer id w h = elim (Bool-cases (is_valid_runtime_ui_id id)) [
    | inr bad ↦ inl (ground (arith, bad))
    | inl good ↦ elim (Option-cases (provider_for_module (runtime_ui_module_id id) r)) [
      | inl gone ↦ inl (ground (arith, good, gone))
      | inr (p, found) ↦ inr (ground (arith, good, found, run_script-single id p w h good found))
    ]
  ]

  -- One round writes the answer, if there is room.
  read_one-room :
      (id : ℕ) (w : Writer)
      → id < 25600
      → HasRoom w (3 + length (body (answer r value id)))
      → read_one r id w ≡ (accept id (answer r value id) w, true)
  unfolding checked
  read_one-room id w h room =
      let wrote = write_value-room id (answer r value id) w room in
      elim (read_one-answer id w h) [
        | inl plain ↦ plain ∙ wrote
        | inr e ↦ e ∙ (ap (checked id w) wrote ∙ ground (arith, room.going))
      ]

  -- A round that has no room ends the loop.
  read_one-full :
      (id : ℕ) (w : Writer)
      → id < 25600
      → w.capacity < length w.bytes + (3 + length (body (answer r value id)))
      → (read_one r id w).1 ≡ false
  unfolding checked not_found_next
  read_one-full id w h full =
      let a = answer r value id in
      let wrote = write_value-full id a w (ground arith) in
      elim (read_one-answer id w h) [
        | inl plain ↦ ap (λ p. p.1) (plain ∙ wrote)
        | inr e ↦
            ap (λ p. p.1) (e ∙ ap (checked id w) wrote)
            ∙ ground (arith, write_value-full id not_found (record w { overflowed = true }) refl)
      ]

  -- The writer after the answers to the ids.
  unfoldable pub accepts : List ℕ → Writer → Writer
  accepts [] w = w
  accepts (id ∷ ids) w = accepts ids (accept id (answer r value id) w)

  pub read_from-room :
      (ids : List ℕ) (w : Writer)
      → All (λ id. id < 25600) ids
      → HasRoom w (length (encode_all (answers r value ids)))
      → read_from r ids w ≡ (accepts ids w, true)
  unfolding read_from accepts answers
  read_from-room [] w h room = refl
  read_from-room (id ∷ ids) w h room =
      let a = answer r value id in
      let split = length-append (encode id a) (encode_all (answers r value ids)) in
      let size : length (encode id a) ≡ 3 + length (body a) = length-encode id a in
      let here : HasRoom w (3 + length (body a)) = record {
        going = room.going;
        present = room.present;
        fits = omega (arith, room.fits);
      } in
      let later : HasRoom (accept id a w) (length (encode_all (answers r value ids))) = record {
        going = room.going;
        present = room.present;
        fits = omega (arith, room.fits, length-append w.bytes (encode id a));
      } in
      ground (arith, read_one-room id w h.0 here, read_from-room ids (accept id a w) h.1 later)

  pub read_from-full :
      (ids : List ℕ) (w : Writer)
      → All (λ id. id < 25600) ids
      → w.overflowed ≡ false
      → w.has_out ≡ true
      → w.capacity < length w.bytes + length (encode_all (answers r value ids))
      → length w.bytes ≤ w.capacity
      → (read_from r ids w).1 ≡ false
  unfolding read_from answers
  read_from-full [] w h going present full low = absurd (omega arith)
  read_from-full (id ∷ ids) w h going present full low =
      let a = answer r value id in
      let split = length-append (encode id a) (encode_all (answers r value ids)) in
      let size : length (encode id a) ≡ 3 + length (body a) = length-encode id a in
      elim (Bool-cases (leb (length w.bytes + (3 + length (body a))) w.capacity)) [
        | inl fits ↦
            let here : HasRoom w (3 + length (body a)) = record {
              going = going;
              present = present;
              fits = leb→le _ _ fits;
            } in
            let longer = length-append w.bytes (encode id a) in
            ground (
              arith,
              read_one-room id w h.0 here,
              read_from-full ids (accept id a w) h.1 going present (omega arith) (omega arith),
            )
        | inr over ↦ ground (arith, read_one-full id w h.0 (ground arith))
      ]
