-- ===== src/Transform/Kinds.antt =====
-- The kinds of the values that `decode_data` of datatype_transformer.py gives.
use model_runner_client.Base.{◌≡◌, refl, Bool, true, false, Option, none, some, String}
use mathlib.Core.Option.{some-injective}
use model_runner_client.Transform.{
  Bytes, VariantType, none_type, double_type, int_type, string_type, parquet_type, json_type,
  unsupported, PyValue, none_value, float_value, int_value, bool_value, str_value, frame_value,
  json_value, other_value, Formats, if_some, detect_data_type, decode_data, decode_int, str_of,
}

-- The type of a value that was sent with the first type: of JSON, a scalar has a type of its own.
abbrev pub sent_as : VariantType → VariantType → Bool
sent_as json_type parquet_type = false
sent_as json_type unsupported = false
sent_as json_type u = true
sent_as none_type none_type = true
sent_as double_type double_type = true
sent_as int_type int_type = true
sent_as string_type string_type = true
sent_as parquet_type parquet_type = true
sent_as t u = false

module _ {F D J X : Type 0} where
  -- What `json.loads` gives: also a text, a number, a truth value or `None`.
  abbrev pub IsJson : PyValue F D J X → Type 0
  IsJson (frame_value d) = ⊥
  IsJson (other_value x) = ⊥
  IsJson v = Unit

  -- The libraries give values of their kinds: `struct.unpack` a float, and the reader of tables a
  -- data frame.
  pub record AreTyped (f : Formats (PyValue F D J X)) : Type 0 where
    pub doubles :
        (bs : Bytes) (v : PyValue F D J X)
        → f.unpack_double bs ≡ some v
        → (x : F) × (v ≡ float_value x)
    pub tables :
        (bs : Bytes) (v : PyValue F D J X)
        → f.read_table bs ≡ some v
        → (d : D) × (v ≡ frame_value d)
    pub texts : (s : String) (v : PyValue F D J X) → f.loads s ≡ some v → IsJson v

  IsJson-detected :
      (v : PyValue F D J X)
      → IsJson v
      → (u : VariantType) × (detect_data_type v ≡ some u) × (sent_as json_type u ≡ true)
  unfolding detect_data_type
  IsJson-detected none_value h = (none_type, refl, refl)
  IsJson-detected (float_value x) h = (double_type, refl, refl)
  IsJson-detected (int_value n) h = (int_type, refl, refl)
  IsJson-detected (bool_value b) h = (int_type, refl, refl)
  IsJson-detected (str_value s) h = (string_type, refl, refl)
  IsJson-detected (json_value j) h = (json_type, refl, refl)
  IsJson-detected (frame_value d) h = absurd h
  IsJson-detected (other_value x) h = absurd h

  loads-IsJson :
      (f : Formats (PyValue F D J X)) (o : Option String) (v : PyValue F D J X)
      → AreTyped f
      → if_some o f.loads ≡ some v
      → IsJson v
  loads-IsJson f none v h e = cc
  loads-IsJson f (some s) v h e = h.texts s v e

  str_of-detected :
      (o : Option String) (v : PyValue F D J X)
      → str_of o ≡ some v
      → detect_data_type v ≡ some string_type
  unfolding str_of detect_data_type
  str_of-detected none v e = cc
  str_of-detected (some s) v e = rw (← some-injective (str_value s) v e) refl

  -- Each value that `decode_data` gives has a detected type, if the libraries of the formats give values
  -- of their kinds. It is the type that the value came with; but from JSON a scalar may come, which has
  -- a type of its own, and no table does.
  pub decode_data_typed :
      (f : Formats (PyValue F D J X)) (bs : Bytes) (t : VariantType) (v : PyValue F D J X)
      → AreTyped f
      → decode_data f bs t ≡ some v
      → (u : VariantType) × (detect_data_type v ≡ some u) × (sent_as t u ≡ true)
  unfolding decode_data
  decode_data_typed f bs none_type v h e =
      (none_type, rw (← some-injective none_value v e) (unfold detect_data_type in refl), refl)
  decode_data_typed f bs double_type v h e =
      let (x, p) = h.doubles bs v e in (double_type, rw p (unfold detect_data_type in refl), refl)
  decode_data_typed f bs int_type v h e = (
    int_type,
    rw (← some-injective (int_value (decode_int bs)) v e) (unfold detect_data_type in refl),
    refl,
  )
  decode_data_typed f bs string_type v h e =
      (string_type, str_of-detected (f.decode_utf8 bs) v e, refl)
  decode_data_typed f bs parquet_type v h e =
      let (d, p) = h.tables bs v e in (parquet_type, rw p (unfold detect_data_type in refl), refl)
  decode_data_typed f bs json_type v h e =
      IsJson-detected v (loads-IsJson f (f.decode_utf8 bs) v h e)
  decode_data_typed f bs unsupported v h e = cc
