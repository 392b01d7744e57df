-- ===== src/Transform/Variants.antt =====
-- The round trip of values through the type that `detect_data_type` of datatype_transformer.py finds.
use model_runner_client.Base.{◌≡◌, refl, sym, ap, ◌∙◌, true, false, Option, none, some, String}
use mathlib.Core.Option.{some-injective}
use model_runner_client.Base.Int.{ℤ, pos}
use model_runner_client.Transform.{
  Bytes, VariantType, none_type, double_type, int_type, string_type, parquet_type, json_type,
  PyValue, none_value, float_value, int_value, bool_value, str_value, frame_value, json_value,
  Formats, if_some, detect_data_type, encode_int, decode_int, encode_data, decode_data, str_of,
}
use model_runner_client.Transform.Integers.{encode_int_refuses, decode_int-encode_int}

int_restored : (z : ℤ) (bs : Bytes) → encode_int z ≡ some bs → decode_int bs ≡ z
int_restored z bs e =
    let (bs', e', l, d) = decode_int-encode_int z (encode_int_refuses z bs e) in
    ap decode_int (some-injective bs bs' (sym e ∙ e')) ∙ d

module _ {F D J X : Type 0} where
  -- What comes back for a value: a Boolean becomes an integer.
  abbrev pub restored : PyValue F D J X → PyValue F D J X
  restored (bool_value true) = int_value (pos 1)
  restored (bool_value false) = int_value (pos 0)
  restored v = v

  -- UTF-8 is a round trip.
  abbrev pub IsUtf8 : Formats (PyValue F D J X) → Type 0
  IsUtf8 f = (s : String) (bs : Bytes) → f.encode_utf8 s ≡ some bs → f.decode_utf8 bs ≡ some s

  -- The library of the value's format restores it.
  abbrev pub IsKept : Formats (PyValue F D J X) → PyValue F D J X → Type 0
  IsKept f (float_value x) =
      (bs : Bytes)
      → f.pack_double (float_value x) ≡ some bs
      → f.unpack_double bs ≡ some (float_value x)
  IsKept f (frame_value d) =
      (bs : Bytes)
      → f.write_table (frame_value d) ≡ some bs
      → f.read_table bs ≡ some (frame_value d)
  IsKept f (json_value j) =
      (s : String) → f.dumps (json_value j) ≡ some s → f.loads s ≡ some (json_value j)
  IsKept f v = Unit

  json_restored :
      (f : Formats (PyValue F D J X)) (o : Option String) (v : PyValue F D J X) (bs : Bytes)
      → IsUtf8 f
      → ((s : String) → o ≡ some s → f.loads s ≡ some v)
      → if_some o f.encode_utf8 ≡ some bs
      → if_some (f.decode_utf8 bs) f.loads ≡ some v
  json_restored f none v bs u k e = cc
  json_restored f (some s) v bs u k e = rw (u s bs e) (k s refl)

  -- A value that is encoded with its detected type is decoded to itself, and a Boolean to the
  -- integer of its value, if the formats of texts and of the value's kind are round trips.
  pub decode_data-encode_data :
      (f : Formats (PyValue F D J X)) (v : PyValue F D J X) (t : VariantType) (bs : Bytes)
      → IsUtf8 f
      → IsKept f v
      → detect_data_type v ≡ some t
      → encode_data f t v ≡ some bs
      → decode_data f bs t ≡ some (restored v)
  unfolding detect_data_type encode_data decode_data
  decode_data-encode_data f none_value none_type bs u k d e = refl
  decode_data-encode_data f (float_value x) double_type bs u k d e = k bs e
  decode_data-encode_data f (int_value n) int_type bs u k d e =
      ap (λ z. some (int_value z)) (int_restored n bs e)
  decode_data-encode_data f (bool_value true) int_type bs u k d e =
      ap (λ z. some (int_value z)) (int_restored (pos 1) bs e)
  decode_data-encode_data f (bool_value false) int_type bs u k d e =
      ap (λ z. some (int_value z)) (int_restored (pos 0) bs e)
  decode_data-encode_data f (str_value s) string_type bs u k d e = ap str_of (u s bs e)
  decode_data-encode_data f (frame_value x) parquet_type bs u k d e = k bs e
  decode_data-encode_data f (json_value j) json_type bs u k d e =
      json_restored f (f.dumps (json_value j)) (json_value j) bs u k e
  decode_data-encode_data f _ _ bs u k d e = cc
