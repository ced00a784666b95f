-- ===== src/Io/Exposure.antt =====
-- The ids that the service gives out are those of the definitions, each once.
use flowio_waveshare_qwiic.Prelude.{
  ℕ, zero, suc, Bool, true, none, some, List, [], ◌∷◌, ◌++◌, ◌≡◌, ◌≤◌, ◌<◌, ◌+◌, if◌then◌else◌,
  length, get_elem?, refl, sym, subst, ◌∙◌, ◌⊎◌, inl, inr, arith, Bool-cases, Option-cases,
  get_elem?-some, ltb,
}
use flowio_waveshare_qwiic.Io.Types.{Kind, input, output, io_id_ai_base, Capacity, AnalogSlot, Io}
use flowio_waveshare_qwiic.Io.Table.{find_by_logical, io_count, io_id_at}
use flowio_waveshare_qwiic.Io.Ids.{
  Ascends, Ascends-append, Ascends-weaken, Ascends-single, logical_ids, analog_ids, exposed,
  find_by_logical-get, ids-none, ids-some,
}
use flowio_waveshare_qwiic.Io.Enumeration.{
  base, Fits, IsTable, io_count-length, io_id_at-get, get_elem?-none,
}
use flowio_waveshare_qwiic.Io.Known.{Known, logical-place, exposed-Known}

module _ {F : Type 0} where
  logical_ids-Ascends :
      (board : Capacity) (io : Io F) (kind : Kind) (logical n : ℕ)
      → IsTable board io
      → Ascends
          (base kind + logical)
          (base kind + logical + n)
          (logical_ids kind logical n io.slots)
  unfolding logical_ids
  logical_ids-Ascends board io kind logical zero v = omega arith
  logical_ids-Ascends board io kind logical (suc n) v =
      let lo = base kind + logical in
      let rest =
        Ascends-weaken (base kind + suc logical) (suc lo) (base kind + suc logical + n) (lo + suc n)
          (logical_ids kind (suc logical) n io.slots) (omega arith) (omega arith)
          (logical_ids-Ascends board io kind (suc logical) n v) in
      elim (Option-cases (find_by_logical kind logical 0 io.slots)) [
        | inl missing ↦
            subst (Ascends lo (lo + suc n)) (sym (ids-none kind logical n io.slots missing)) (
              Ascends-weaken (suc lo) lo (lo + suc n) (lo + suc n) _ (omega arith) (omega arith)
                rest)
        | inr (i, found) ↦
            let (s, there, same) = find_by_logical-get kind logical io.slots i found in
            let (used, at_lo) = logical-place board io kind logical i s v there same in
            subst (Ascends lo (lo + suc n)) (sym (ids-some kind logical n i io.slots s found there))
              (
                omega (arith, at_lo),
                subst
                    (λ (x : ℕ).
                      Ascends (suc x) (lo + suc n) (logical_ids kind (suc logical) n io.slots))
                    (sym at_lo) rest,
              )
      ]

  analog_ids-Ascends :
      (lo : ℕ) (as_ : List (AnalogSlot F))
      → ((k : ℕ) (a : AnalogSlot F) → get_elem? as_ k ≡ some a → a.used ≡ true → a.io_id ≡ lo + k)
      → Ascends lo (lo + length as_) (analog_ids as_)
  unfolding analog_ids
  analog_ids-Ascends lo [] h = omega arith
  analog_ids-Ascends lo (a ∷ as_) h =
      let rest =
        Ascends-weaken (suc lo) (suc lo) (suc lo + length as_) (lo + suc (length as_))
          (analog_ids as_) (omega arith) (omega arith)
          (analog_ids-Ascends (suc lo) as_ (λ k b e u. h (suc k) b e u ∙ omega arith)) in
      elim (Bool-cases a.used) [
        | inl used ↦
            let mine : a.io_id ≡ lo = h 0 a refl used ∙ omega arith in
            subst
              (λ (b : Bool).
                Ascends lo (lo + suc (length as_))
                  (if b then a.io_id ∷ analog_ids as_ else analog_ids as_))
              (sym used)
              (
                omega (arith, mine),
                subst (λ (x : ℕ). Ascends (suc x) (lo + suc (length as_)) (analog_ids as_))
                    (sym mine) rest,
              )
        | inr unused ↦
            subst
              (λ (b : Bool).
                Ascends lo (lo + suc (length as_))
                  (if b then a.io_id ∷ analog_ids as_ else analog_ids as_))
              (sym unused)
              (Ascends-weaken (suc lo) lo (lo + suc (length as_)) (lo + suc (length as_))
                (analog_ids as_) (omega arith) (omega arith) rest)
      ]

  exposed-Ascends :
      (board : Capacity) (io : Io F)
      → Fits board
      → IsTable board io
      → Ascends 0 (io_id_ai_base + length io.analog) (exposed board io)
  unfolding exposed
  exposed-Ascends board io f v =
      let outs = logical_ids output 0 board.max_digital_outputs io.slots in
      let ins = logical_ids input 0 board.max_digital_inputs io.slots in
      let ais = analog_ids io.analog in
      let top = io_id_ai_base + length io.analog in
      Ascends-append 0 64 top outs (ins ++ ais)
        (Ascends-weaken 0 0 (0 + 0 + board.max_digital_outputs) 64 outs (omega arith)
          (omega (arith, f.outputs))
          (logical_ids-Ascends board io output 0 board.max_digital_outputs v))
        (Ascends-append 64 192 top ins ais
          (Ascends-weaken (64 + 0) 64 (64 + 0 + board.max_digital_inputs) 192 ins (omega arith)
            (omega (arith, f.inputs))
            (logical_ids-Ascends board io input 0 board.max_digital_inputs v))
          (analog_ids-Ascends io_id_ai_base io.analog v.analog_placed))

  -- No id stands at two indices.
  pub io_id_at_single :
      (board : Capacity) (io : Io F) (j k id : ℕ)
      → Fits board
      → IsTable board io
      → io_id_at board j io ≡ some id
      → io_id_at board k io ≡ some id
      → j ≡ k
  io_id_at_single board io j k id f v e g =
      Ascends-single 0 _ (exposed board io) j k id (exposed-Ascends board io f v)
        (sym (io_id_at-get board j io) ∙ e) (sym (io_id_at-get board k io) ∙ g)

  -- The ids are numbered from 0 below `ioCount_`: an index below it has the id of a definition, and
  -- one from it on is unknown.
  pub io_id_at_exact :
      (board : Capacity) (io : Io F) (index : ℕ)
      → IsTable board io
      → ((index < io_count board io)
          × ((id : ℕ) × (io_id_at board index io ≡ some id) × Known io id))
        ⊎ ((io_count board io ≤ index) × (io_id_at board index io ≡ none))
  io_id_at_exact board io index v =
      let n = io_count-length board io in
      elim (Bool-cases (ltb index (length (exposed board io)))) [
        | inl below ↦
            let (id, e) = get_elem?-some (exposed board io) index (ground arith) in
            inl (
              ground (arith, n),
              (id, io_id_at-get board index io ∙ e, exposed-Known board io index id v e),
            )
        | inr past ↦ inr (
          ground (arith, n),
          io_id_at-get board index io ∙ get_elem?-none (exposed board io) index (ground arith),
        )
      ]
