-- ===== src/Tests/Transform.antt =====
-- Runs of the encoders, with formats that know one text, "a".
use model_runner_client.Base.{
  ℕ, ◌^◌, ◌≡◌, refl, true, Option, none, some, [], ◌∷◌, String, ◌≢◌, nat_beq, Bool-cases, inl, inr,
  if◌then◌else◌, sym, ap, ◌∙◌,
}
use model_runner_client.Base.{◌↔◌}
use mathlib.Core.Option.{some-injective}
use model_runner_client.Base.Eq.{◌==◌, string_equality}
use model_runner_client.Base.Int.{pos, negsuc}
use model_runner_client.Transform.{
  Bytes, PyValue, int_value, bool_value, str_value, string_type, int_type, json_type, VariantType,
  Formats, encode_int, encode_data, decode_data, detect_data_type,
}
use model_runner_client.Transform.Integers.{IsTwosComplement, encode_int_lem}
use model_runner_client.Transform.Kinds.{AreTyped, sent_as, decode_data_typed}
use model_runner_client.Transform.Variants.{decode_data-encode_data}

-- -2 is fe ff ff ff ff ff ff ff.
abbrev minus_two : Bytes
minus_two = 254 ∷ 255 ∷ 255 ∷ 255 ∷ 255 ∷ 255 ∷ 255 ∷ 255 ∷ []

encode_int_lem_example :
    (encode_int (negsuc 1) ≡ some minus_two) ↔ IsTwosComplement (negsuc 1) minus_two
encode_int_lem_example = encode_int_lem (negsuc 1) minus_two

encoded_minus_two : encode_int (negsuc 1) ≡ some minus_two
unfolding encode_int
encoded_minus_two = refl

-- The least integer that is too large.
refused_integer : encode_int (pos (2 ^ 63)) ≡ none
unfolding encode_int
refused_integer = refl

abbrev Value : Type 0
Value = PyValue ℕ ℕ ℕ ℕ

abbrev encode : String → Option Bytes
encode s = if s == "a" then some (97 ∷ []) else none

abbrev decode : Bytes → Option String
decode [] = none
decode (b ∷ bs) = if nat_beq b 97 then some "a" else none

abbrev formats : Formats Value
formats = record {
  pack_double = λ v. none;
  unpack_double = λ bs. none;
  encode_utf8 = encode;
  decode_utf8 = decode;
  write_table = λ v. none;
  read_table = λ bs. none;
  dumps = λ v. none;
  loads = λ s. none;
}

no_bytes : (bs : Bytes) → none ≢ some bs
no_bytes bs e = cc

decode-encode : (s : String) (bs : Bytes) → encode s ≡ some bs → decode bs ≡ some s
decode-encode s bs e = elim (Bool-cases (s == "a")) [
  | inl h ↦
      let same : s ≡ "a" = (string_equality.test_iff s "a").0 h in
      let bytes : some (97 ∷ []) ≡ some bs = rw h at e in
      ap decode (sym (some-injective (97 ∷ []) bs bytes)) ∙ ap some (sym same)
  | inr h ↦ absurd (no_bytes bs (rw h at e))
]

decode_data-encode_data_example : decode_data formats (97 ∷ []) string_type ≡ some (str_value "a")
unfolding detect_data_type encode_data
decode_data-encode_data_example =
    decode_data-encode_data formats (str_value "a") string_type (97 ∷ []) decode-encode tt refl refl

-- A Boolean comes back as an integer.
decoded_true :
    decode_data formats (1 ∷ 0 ∷ 0 ∷ 0 ∷ 0 ∷ 0 ∷ 0 ∷ 0 ∷ []) int_type ≡ some (int_value (pos 1))
unfolding decode_data
decoded_true = refl

encoded_true :
    encode_data formats int_type (bool_value true) ≡ some (1 ∷ 0 ∷ 0 ∷ 0 ∷ 0 ∷ 0 ∷ 0 ∷ 0 ∷ [])
unfolding encode_data
encoded_true = refl

no_value : (v : Value) → none ≢ some v
no_value v e = cc

-- Every text is taken for the JSON of itself.
abbrev typed_formats : Formats Value
typed_formats = record formats { loads = λ s. some (str_value s) }

typed_formats-AreTyped : AreTyped typed_formats
typed_formats-AreTyped = record {
  doubles = λ bs v e. absurd (no_value v e);
  tables = λ bs v e. absurd (no_value v e);
  texts = λ s v e. rw (← some-injective (str_value s) v e) tt;
}

abbrev text_a : Value
text_a = str_value "a"

decode_data_typed_example :
    (u : VariantType) × (detect_data_type text_a ≡ some u) × (sent_as json_type u ≡ true)
unfolding decode_data
decode_data_typed_example =
    decode_data_typed typed_formats (97 ∷ []) json_type text_a typed_formats-AreTyped refl
