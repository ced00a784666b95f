-- ===== src/Ui/Answers.antt =====
-- The whole reply of `readValues`: the answers, and the limits that hold for any providers.
use flowio_waveshare_qwiic.Prelude.{
  ℕ, suc, true, false, some, ◌+◌, ◌-◌, ◌%◌, ◌≡◌, ◌<◌, refl, ap, sym, ◌∙◌, List, [], ◌∷◌, ◌++◌, inl,
  inr, if◌then◌else◌, length, arith, leb, subst, Bool-cases, All, leb→le,
}
use mathlib.Core.List.{append_assoc, append-nil}
use flowio_waveshare_qwiic.Ui.Types.{Value, Writer}
use flowio_waveshare_qwiic.Ui.Wire.{encode, decode_all}
use flowio_waveshare_qwiic.Ui.WireLaws.{encode_all, wired_all, decode_all-encode_all}
use flowio_waveshare_qwiic.Ui.WriterLaws.{HasRoom, accept}
use flowio_waveshare_qwiic.Ui.Service.{Registry, Reply, new_writer, read_values}
use flowio_waveshare_qwiic.Ui.ServiceLaws.{
  IsSingle, answer, answers, accepts, read_from-room, read_from-full,
}

-- The reply to a request that cannot be answered.
abbrev pub refused : Reply
refused = record { ok = false; out_len = 0; out = [] }

module _ (r : Registry) (value : ℕ → ℕ → Value) (single : IsSingle r value) where
  bytes-accepts :
      (ids : List ℕ) (w : Writer)
      → ((accepts r value single ids w).bytes ≡ w.bytes ++ encode_all (answers r value ids))
        × ((accepts r value single ids w).overflowed ≡ w.overflowed)
        × (w.record_count < 256
            → (accepts r value single ids w).record_count ≡ (w.record_count + length ids) % 256)
  unfolding accepts answers
  bytes-accepts [] w = (sym (append-nil w.bytes), refl, λ h. omega arith)
  bytes-accepts (id ∷ ids) w =
      let a = answer r value id in
      let rest = bytes-accepts ids (accept id a w) in
      (
        rest.0 ∙ append_assoc w.bytes (encode id a) (encode_all (answers r value ids)),
        rest.1,
        λ h. omega (arith, rest.2 (omega arith)),
      )

  length-answers : (ids : List ℕ) → length (answers r value ids) ≡ length ids
  unfolding answers
  length-answers [] = refl
  length-answers (id ∷ ids) = ap suc (length-answers ids)

  -- Providers that each write one record of the value asked for, fewer than 256 ids, each below
  -- 25600, and a buffer that is not empty: the reply is the number of ids and then the answers in
  -- their order, each read back as it was written, if the buffer has room for all of them; otherwise
  -- the request fails and reports no bytes.
  pub read_values-answers :
      (ids : List ℕ) (capacity : ℕ)
      → All (λ id. id < 25600) ids
      → length ids < 256
      → 0 < capacity
      → (read_values r ids true capacity ≡ (
          if leb (length (encode_all (answers r value ids)) + 1) capacity
          then record {
            ok = true;
            out_len = length (encode_all (answers r value ids)) + 1;
            out = length ids ∷ encode_all (answers r value ids);
          }
          else refused))
        × (decode_all (length ids) (encode_all (answers r value ids))
            ≡ some (wired_all (answers r value ids)))
  unfolding read_values new_writer answers decode_all
  read_values-answers [] capacity h few some_room = (ground arith, refl)
  read_values-answers (id ∷ ids) capacity h few some_room =
      let all = id ∷ ids in
      let rs = answers r value all in
      let w = new_writer (capacity - 1) in
      let done = bytes-accepts all w in
      (
        elim (Bool-cases (leb (length (encode_all rs) + 1) capacity)) [
          | inl fits ↦
              let room : HasRoom w (length (encode_all rs)) = record {
                going = refl;
                present = refl;
                fits = omega (arith, leb→le _ _ fits);
              } in
              ground (
                arith,
                read_from-room r value single all w h room,
                done.0,
                done.1,
                done.2 (omega arith),
              )
          | inr over ↦
              ground (
                arith,
                read_from-full r value single all w h refl refl (ground arith) (omega arith),
              )
        ],
        subst (λ (n : ℕ). decode_all n (encode_all rs) ≡ some (wired_all rs)) (length-answers all)
            (decode_all-encode_all rs),
      )
