-- ===== src/Ui/Types.antt =====
-- Identifiers, values and the writer's state: RuntimeUi.h.
use flowio_waveshare_qwiic.Prelude.{ℕ, Bool, ◌*◌, ◌+◌, ◌/◌, ◌%◌, ◌&&◌, ltb, List, u8, u16}
use flowio_waveshare_qwiic.Startup.Manager.{module_id_count}

abbrev pub module_stride : ℕ
module_stride = 100

-- `makeRuntimeUiId`
unfoldable pub make_runtime_ui_id : ℕ → ℕ → ℕ
make_runtime_ui_id module_id value_id = u16 (module_id * module_stride + value_id)

-- `runtimeUiModuleId`
unfoldable pub runtime_ui_module_id : ℕ → ℕ
runtime_ui_module_id id = u8 (id / module_stride)

-- `runtimeUiValueId`
unfoldable pub runtime_ui_value_id : ℕ → ℕ
runtime_ui_value_id id = u8 (id % module_stride)

-- `isValidRuntimeUiId`
unfoldable pub is_valid_runtime_ui_id : ℕ → Bool
unfolding runtime_ui_module_id runtime_ui_value_id
is_valid_runtime_ui_id id =
    ltb 0 (runtime_ui_module_id id)
    && (ltb (runtime_ui_module_id id) module_id_count && ltb 0 (runtime_ui_value_id id))

-- What a provider can write. `int32` holds the bit pattern of a signed value, `float32` that of a
-- float, and `string` the bytes of a text.
pub data Value : Type 0 where
  not_found : Value
  unavailable : Value
  bool : Bool → Value
  int32 : ℕ → Value
  uint32 : ℕ → Value
  float32 : ℕ → Value
  enum : ℕ → Value
  string : List ℕ → Value

-- `RuntimeUiWireType`
unfoldable pub wire_type : Value → ℕ
wire_type not_found = 0
wire_type unavailable = 1
wire_type (bool b) = 2
wire_type (int32 n) = 3
wire_type (uint32 n) = 4
wire_type (float32 n) = 5
wire_type (enum n) = 6
wire_type (string cs) = 7

-- `RuntimeUiBinaryWriter`; `bytes` is what has been written, and its length is `length_`.
pub record Writer : Type 0 where
  pub has_out : Bool
  pub capacity : ℕ
  pub bytes : List ℕ
  pub overflowed : Bool
  pub record_count : ℕ

-- What a provider does when it is asked: calls of the writer, each with its answer, and a result.
pub data Script : Type 0 where
  done : Bool → Script
  write : ℕ → Value → (Bool → Script) → Script
