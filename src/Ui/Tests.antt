-- ===== src/Ui/Tests.antt =====
-- Tests of the runtime values, and the theorems at concrete providers.
use flowio_waveshare_qwiic.Prelude.{
  ℕ, true, none, some, [], ◌∷◌, ◌≡◌, ◌==◌, refl, arith, if◌then◌else◌, subst, sym,
}
use flowio_waveshare_qwiic.Startup.Manager.{is_valid_id}
use flowio_waveshare_qwiic.Ui.Types.{
  Value, not_found, bool, int32, string, done, write, make_runtime_ui_id, is_valid_runtime_ui_id,
  runtime_ui_module_id, runtime_ui_value_id, wire_type,
}
use flowio_waveshare_qwiic.Ui.Writer.{write_value, write_header, text_prefix}
use flowio_waveshare_qwiic.Ui.Wire.{encode, body, four_bytes, decode_all, wired}
use flowio_waveshare_qwiic.Ui.Service.{
  Registry, Provider, read_values, read_from, read_one, ask, run_script, not_found_next,
  provider_for_module, new_writer,
}
use flowio_waveshare_qwiic.Ui.ServiceLaws.{IsSingle, answer, answers}
use flowio_waveshare_qwiic.Ui.Answers.{refused, read_values-answers}
use flowio_waveshare_qwiic.Ui.Limits.{IsReply, read_values-IsReply}

-- Module 3 answers value 1 with a flag, value 2 with a text, and any other with a number.
abbrev shown : ℕ → ℕ → Value
shown m k = if k == 1 then bool true else if k == 2 then string (b'o' ∷ b'k' ∷ []) else int32 k

abbrev pump : Provider
pump k = write (make_runtime_ui_id 3 k) (shown 3 k) (λ ok. done ok)

abbrev providers : Registry
providers m = if m == 3 then some pump else none

pump_found : (m : ℕ) (p : Provider) → providers m ≡ some p → (m ≡ 3) × (pump ≡ p)
pump_found m p h = ground arith

providers-IsSingle : IsSingle providers shown
providers-IsSingle m p h k =
    let (three, same) = pump_found m p h in
    subst (λ (n : ℕ). p k ≡ write (make_runtime_ui_id n k) (shown n k) (λ ok. done ok)) (sym three)
      (subst (λ q. q k ≡ write (make_runtime_ui_id 3 k) (shown 3 k) (λ ok. done ok)) same refl)

read_values-answers_example :
    (read_values providers (301 ∷ 302 ∷ 501 ∷ []) true 32 ≡ record {
      ok = true;
      out_len = 14;
      out = 3 ∷ 45 ∷ 1 ∷ 2 ∷ 1 ∷ 46 ∷ 1 ∷ 7 ∷ 2 ∷ 111 ∷ 107 ∷ 245 ∷ 1 ∷ 0 ∷ [];
    })
    × (decode_all 3 (45 ∷ 1 ∷ 2 ∷ 1 ∷ 46 ∷ 1 ∷ 7 ∷ 2 ∷ 111 ∷ 107 ∷ 245 ∷ 1 ∷ 0 ∷ [])
        ≡ some ((301, bool true) ∷ (302, string (b'o' ∷ b'k' ∷ [])) ∷ (501, not_found) ∷ []))
unfolding answers answer encode body four_bytes wire_type text_prefix wired is_valid_runtime_ui_id
    provider_for_module is_valid_id runtime_ui_module_id runtime_ui_value_id
read_values-answers_example =
    read_values-answers providers shown providers-IsSingle (301 ∷ 302 ∷ 501 ∷ []) 32 (omega arith)
      (omega arith) (omega arith)

read_values-IsReply_example : IsReply 3 (read_values providers (301 ∷ []) true 3)
read_values-IsReply_example = read_values-IsReply providers (301 ∷ []) true 3

-- Four bytes of a record do not fit into a buffer of three.
no_room : read_values providers (301 ∷ []) true 3 ≡ refused
unfolding read_values read_from read_one ask run_script not_found_next provider_for_module
    is_valid_id runtime_ui_module_id runtime_ui_value_id is_valid_runtime_ui_id new_writer
    write_value write_header
no_room = refl
