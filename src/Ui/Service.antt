-- ===== src/Ui/Service.antt =====
-- `RuntimeUiRegistry` and `RuntimeUiService::readValues`.
use flowio_waveshare_qwiic.Prelude.{
  ℕ, Bool, true, false, Option, none, some, ◌+◌, ◌-◌, ◌||◌, not, ◌==◌, List, [], ◌∷◌, if◌then◌else◌,
  length,
}
use flowio_waveshare_qwiic.Startup.Manager.{is_valid_id}
use flowio_waveshare_qwiic.Ui.Types.{
  not_found, Writer, Script, done, write, runtime_ui_module_id, runtime_ui_value_id,
  is_valid_runtime_ui_id,
}
use flowio_waveshare_qwiic.Ui.Writer.{write_value}

-- A provider answers each value id by calls of the writer.
abbrev pub Provider : Type 0
Provider = ℕ → Script

-- The providers by module.
abbrev pub Registry : Type 0
Registry = ℕ → Option Provider

-- `registerProvider`; `none` is the null pointer, and `module_id` the provider's own module.
unfoldable pub register_provider : Option (ℕ × Provider) → Registry → Registry × Bool
register_provider none r = (r, false)
register_provider (some (module_id, p)) r =
    if not (is_valid_id module_id) then (r, false) else elim (r module_id) [
      | some q ↦ (r, false)
      | none ↦ ((λ k. if k == module_id then some p else r k), true)
    ]

-- `providerForModule`
unfoldable pub provider_for_module : ℕ → Registry → Option Provider
provider_for_module module_id r = if not (is_valid_id module_id) then none else r module_id

-- `writeRuntimeUiValue`: the provider's calls of the writer.
unfoldable pub run_script : Script → Writer → Writer × Bool
run_script (done ok) w = (w, ok)
run_script (write id v next) w = let (w', ok) = write_value id v w in run_script (next ok) w'

-- `writeNotFound`, as an answer to the loop: whether it goes on.
unfoldable pub not_found_next : ℕ → Writer → Writer × Bool
not_found_next id w = write_value id not_found w

-- The part of a round that asks a provider.
unfoldable pub ask : ℕ → Provider → Writer → Writer × Bool
ask id p w =
    let (w1, ok) = run_script (p (runtime_ui_value_id id)) w in
    let (w2, kept) =
      if not ok || w1.record_count == w.record_count then not_found_next id w1 else (w1, true) in
    if not kept then (w2, false) else (w2, not w2.overflowed)

-- One round of the loop: the writer, and whether the loop goes on.
unfoldable pub read_one : Registry → ℕ → Writer → Writer × Bool
read_one r id w =
    if not (is_valid_runtime_ui_id id)
    then not_found_next id w
    else elim (provider_for_module (runtime_ui_module_id id) r) [
      | none ↦ not_found_next id w
      | some p ↦ ask id p w
    ]

-- The loop over the ids.
unfoldable pub read_from : Registry → List ℕ → Writer → Writer × Bool
read_from r [] w = (w, true)
read_from r (id ∷ ids) w =
    let (w', ok) = read_one r id w in
    let rest = read_from r ids w' in if ok then rest else (w', false)

-- What `readValues` returns, and the first `out_len` bytes of its buffer.
pub record Reply : Type 0 where
  pub ok : Bool
  pub out_len : ℕ
  pub out : List ℕ

unfoldable pub new_writer : ℕ → Writer
new_writer capacity = record {
  has_out = true;
  capacity = capacity;
  bytes = [];
  overflowed = false;
  record_count = 0;
}

-- `readValues`: `ids` are the `count` ids asked for (a null array reads as zeros), and `has_out`
-- says that `out` is not null.
unfoldable pub read_values : Registry → List ℕ → Bool → ℕ → Reply
unfolding new_writer
read_values r ids has_out capacity =
    if not has_out || capacity == 0
    then record { ok = false; out_len = 0; out = [] }
    else if length ids == 0
    then record { ok = true; out_len = 1; out = 0 ∷ [] }
    else (let (w, ok) = read_from r ids (new_writer (capacity - 1)) in
        if not ok then record { ok = false; out_len = 0; out = [] } else record {
          ok = not w.overflowed;
          out_len = length w.bytes + 1;
          out = w.record_count ∷ w.bytes;
        })
