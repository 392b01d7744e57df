-- ===== src/Transform.antt =====
-- model_runner_client/utils/datatype_transformer.py: values as bytes. A byte is a number below 256.
-- Formats other than integers are a parameter.
pub mod Integers
pub mod Variants
pub mod Kinds
use model_runner_client.Base.{
  ℕ, zero, suc, ◌+◌, ◌-◌, ◌*◌, ◌/◌, ◌%◌, ◌^◌, Bool, Option, none, some, List, [], ◌∷◌, ltb, length,
  if◌then◌else◌, String,
}
use model_runner_client.Base.Int.{ℤ, pos, negsuc}

abbrev pub Bytes : Type 0
Bytes = List ℕ

-- `VariantType`, with `unsupported` for any other number.
pub data VariantType : Type 0 where
  none_type double_type int_type string_type parquet_type json_type unsupported : VariantType

-- A Python object, as far as `detect_data_type` tells it apart. `F` are floats, `D` data frames, `J`
-- dictionaries and lists, and `X` everything else.
pub data PyValue (F D J X : Type 0) : Type 0 where
  none_value : PyValue F D J X
  float_value : F → PyValue F D J X
  int_value : ℤ → PyValue F D J X
  bool_value : Bool → PyValue F D J X
  str_value : String → PyValue F D J X
  frame_value : D → PyValue F D J X
  json_value : J → PyValue F D J X
  other_value : X → PyValue F D J X

-- The `width` lowest bytes of a number, least first.
unfoldable pub to_bytes : ℕ → ℕ → Bytes
to_bytes zero n = []
to_bytes (suc width) n = (n % 256) ∷ to_bytes width (n / 256)

unfoldable pub from_bytes : Bytes → ℕ
from_bytes [] = 0
from_bytes (b ∷ bs) = b + 256 * from_bytes bs

-- `data.to_bytes(8, byteorder="little", signed=True)`; `none` is the `OverflowError`. A negative
-- number `-(n + 1)` is written as `2 ^ 64 - (n + 1)`.
unfoldable pub encode_int : ℤ → Option Bytes
unfolding to_bytes
encode_int (pos n) = if ltb n (2 ^ 63) then some (to_bytes 8 n) else none
encode_int (negsuc n) = if ltb n (2 ^ 63) then some (to_bytes 8 (2 ^ 64 - (n + 1))) else none

-- The number with these bits, of which there are `8 * width`.
unfoldable pub to_signed : ℕ → ℕ → ℤ
to_signed width n = if ltb (2 * n) (256 ^ width) then pos n else negsuc (256 ^ width - (n + 1))

-- `int.from_bytes(data_bytes, byteorder="little", signed=True)`
unfoldable pub decode_int : Bytes → ℤ
unfolding from_bytes to_signed
decode_int [] = pos 0
decode_int (b ∷ bs) = to_signed (length (b ∷ bs)) (from_bytes (b ∷ bs))

-- The encoders and decoders of the other formats; `none` is an exception. `encode_utf8` fails on lone
-- surrogates.
pub record Formats (V : Type 0) : Type 0 where
  pub pack_double : V → Option Bytes
  pub unpack_double : Bytes → Option V
  pub encode_utf8 : String → Option Bytes
  pub decode_utf8 : Bytes → Option String
  pub write_table : V → Option Bytes
  pub read_table : Bytes → Option V
  pub dumps : V → Option String
  pub loads : String → Option V

int_of_bool : Bool → ℤ
int_of_bool b = if b then pos 1 else pos 0

abbrev if_some : {A B : Type 0} → Option A → (A → Option B) → Option B
if_some none k = none
if_some (some a) k = k a

module _ {F D J X : Type 0} where
  -- `none` is the `ValueError`. A `bool` is an `int`.
  unfoldable pub detect_data_type : PyValue F D J X → Option VariantType
  detect_data_type none_value = some none_type
  detect_data_type (float_value x) = some double_type
  detect_data_type (int_value n) = some int_type
  detect_data_type (bool_value b) = some int_type
  detect_data_type (str_value s) = some string_type
  detect_data_type (frame_value d) = some parquet_type
  detect_data_type (json_value j) = some json_type
  detect_data_type (other_value x) = none

  -- `data.to_bytes`: only an `int` has it.
  int_bytes : PyValue F D J X → Option Bytes
  unfolding encode_int int_of_bool
  int_bytes (int_value n) = encode_int n
  int_bytes (bool_value b) = encode_int (int_of_bool b)
  int_bytes v = none

  -- `data.encode`: only a text has it.
  str_bytes : Formats (PyValue F D J X) → PyValue F D J X → Option Bytes
  str_bytes f (str_value s) = f.encode_utf8 s
  str_bytes f v = none

  -- `none` is an exception.
  unfoldable pub encode_data :
      Formats (PyValue F D J X) → VariantType → PyValue F D J X → Option Bytes
  unfolding int_bytes str_bytes
  encode_data f none_type v = some []
  encode_data f double_type v = f.pack_double v
  encode_data f int_type v = int_bytes v
  encode_data f string_type v = str_bytes f v
  encode_data f parquet_type v = f.write_table v
  encode_data f json_type v = if_some (f.dumps v) f.encode_utf8
  encode_data f unsupported v = none

  str_of : Option String → Option (PyValue F D J X)
  str_of none = none
  str_of (some s) = some (str_value s)

  unfoldable pub decode_data :
      Formats (PyValue F D J X) → Bytes → VariantType → Option (PyValue F D J X)
  unfolding decode_int str_of
  decode_data f bs none_type = some none_value
  decode_data f bs double_type = f.unpack_double bs
  decode_data f bs int_type = some (int_value (decode_int bs))
  decode_data f bs string_type = str_of (f.decode_utf8 bs)
  decode_data f bs parquet_type = f.read_table bs
  decode_data f bs json_type = if_some (f.decode_utf8 bs) f.loads
  decode_data f bs unsupported = none
