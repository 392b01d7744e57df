-- ===== src/Transform/Integers.antt =====
-- Integers as eight bytes in datatype_transformer.py: the range, and the round trip.
use model_runner_client.Base.{
  ℕ, zero, suc, ◌+◌, ◌-◌, ◌*◌, ◌/◌, ◌%◌, ◌^◌, ◌<◌, ◌≡◌, refl, ap, subst, ◌∙◌, none, some, [], ◌∷◌,
  arith, ltb, length, if◌then◌else◌, Bool-cases, inl, inr, ltb→lt, All, ◌≢◌,
}
use mathlib.Core.Option.{some-injective}
use model_runner_client.Base.{sym, ◌≤◌, ◌↔◌}
use model_runner_client.Base.Int.{ℤ, pos, negsuc}
use model_runner_client.Transform.{Bytes, to_bytes, from_bytes, encode_int, to_signed, decode_int}

from_bytes-to_bytes : (width n : ℕ) → n < 256 ^ width → from_bytes (to_bytes width n) ≡ n
unfolding from_bytes to_bytes
from_bytes-to_bytes zero n h = omega arith
from_bytes-to_bytes (suc width) n h =
    let ih = from_bytes-to_bytes width (n / 256) (omega arith) in omega arith

length-to_bytes : (width n : ℕ) → length (to_bytes width n) ≡ width
unfolding to_bytes
length-to_bytes zero n = refl
length-to_bytes (suc width) n = ap suc (length-to_bytes width (n / 256))

-- The integers of 64 bits.
abbrev pub IsInt64 : ℤ → Type 0
IsInt64 (pos n) = n < 2 ^ 63
IsInt64 (negsuc n) = n < 2 ^ 63

if_fits : (n m : ℕ) (bs : Bytes) → n < m → (if ltb n m then some bs else none) ≡ some bs
if_fits n m bs h = ground arith

encode_int_fits :
    (z : ℤ)
    → IsInt64 z
    → (n : ℕ) × (encode_int z ≡ some (to_bytes 8 n)) × (n < 256 ^ 8) × (to_signed 8 n ≡ z)
unfolding encode_int to_signed
encode_int_fits (pos n) h = (n, if_fits n (2 ^ 63) _ h, omega arith, ground arith)
encode_int_fits (negsuc n) h = (2 ^ 64 - (n + 1), if_fits n (2 ^ 63) _ h, omega arith, ground arith)

decode_int_lem :
    (bs : Bytes) (k : ℕ) → length bs ≡ suc k → decode_int bs ≡ to_signed (suc k) (from_bytes bs)
unfolding decode_int
decode_int_lem [] k e = absurd (omega arith)
decode_int_lem (b ∷ bs) k e = ap (λ n. to_signed n (from_bytes (b ∷ bs))) e

-- An integer of 64 bits is encoded in eight bytes, which decode to it.
pub decode_int-encode_int :
    (z : ℤ)
    → IsInt64 z
    → (bs : Bytes) × (encode_int z ≡ some bs) × (length bs ≡ 8) × (decode_int bs ≡ z)
decode_int-encode_int z h =
    let (n, e, l, s) = encode_int_fits z h in
    let w = length-to_bytes 8 n in
    (
      to_bytes 8 n,
      e,
      w,
      decode_int_lem (to_bytes 8 n) 7 w ∙ ap (to_signed 8) (from_bytes-to_bytes 8 n l) ∙ s,
    )

none_ne : (bs : Bytes) → none ≢ some bs
none_ne bs e = cc

-- Only the integers of 64 bits are encoded; for the others an exception is raised.
pub encode_int_refuses : (z : ℤ) (bs : Bytes) → encode_int z ≡ some bs → IsInt64 z
encode_int_refuses (pos n) bs e = elim (Bool-cases (ltb n (2 ^ 63))) [
  | inl h ↦ ltb→lt n (2 ^ 63) h
  | inr h ↦ absurd (none_ne bs (unfold encode_int in rw h at e))
]
encode_int_refuses (negsuc n) bs e = elim (Bool-cases (ltb n (2 ^ 63))) [
  | inl h ↦ ltb→lt n (2 ^ 63) h
  | inr h ↦ absurd (none_ne bs (unfold encode_int in rw h at e))
]

-- Every element is a byte.
abbrev pub IsBytes : Bytes → Type 0
IsBytes = All (λ b. b < 256)

from_bytes-lt : (bs : Bytes) → IsBytes bs → from_bytes bs < 256 ^ length bs
unfolding from_bytes
from_bytes-lt [] h = omega arith
from_bytes-lt (b ∷ bs) (h, hs) =
    let ih = from_bytes-lt bs hs in
    let r : b + 256 * from_bytes bs < 256 ^ suc (length bs) = omega arith in r

to_bytes-from_bytes : (bs : Bytes) → IsBytes bs → to_bytes (length bs) (from_bytes bs) ≡ bs
unfolding to_bytes from_bytes
to_bytes-from_bytes [] h = refl
to_bytes-from_bytes (b ∷ bs) (h, hs) =
    let low : (b + 256 * from_bytes bs) % 256 ≡ b = omega arith in
    let high : (b + 256 * from_bytes bs) / 256 ≡ from_bytes bs = omega arith in
    rw (low, high) (ap (◌∷◌ b) (to_bytes-from_bytes bs hs))

encode_int-to_signed : (n : ℕ) → n < 256 ^ 8 → encode_int (to_signed 8 n) ≡ some (to_bytes 8 n)
unfolding to_signed
encode_int-to_signed n h = elim (Bool-cases (ltb (2 * n) (256 ^ 8))) [
  | inl l ↦
      rw l (unfold encode_int in if_fits n (2 ^ 63) _ (omega (arith, ltb→lt (2 * n) (256 ^ 8) l)))
  | inr l ↦
      let k = 2 ^ 64 - (n + 1) in
      let small : k < 2 ^ 63 = ground (arith, l) in
      let back : 2 ^ 64 - (k + 1) ≡ n = omega arith in
      rw l (unfold encode_int in (if_fits k (2 ^ 63) _ small ∙ ap (λ j. some (to_bytes 8 j)) back))
]

-- Eight bytes decode to an integer of 64 bits, which is encoded in those bytes.
pub encode_int-decode_int :
    (bs : Bytes) → IsBytes bs → length bs ≡ 8 → encode_int (decode_int bs) ≡ some bs
encode_int-decode_int bs h l =
    let n = from_bytes bs in
    let b : n < 256 ^ 8 = subst (λ k. n < 256 ^ k) l (from_bytes-lt bs h) in
    ap encode_int (decode_int_lem bs 7 l)
    ∙ encode_int-to_signed n b
    ∙ ap some (subst (λ k. to_bytes k n ≡ bs) l (to_bytes-from_bytes bs h))

to_bytes-IsBytes : (width n : ℕ) → IsBytes (to_bytes width n)
unfolding to_bytes
to_bytes-IsBytes zero n = tt
to_bytes-IsBytes (suc width) n = (omega arith, to_bytes-IsBytes width (n / 256))

-- The number whose digits to the base 256 are the bytes, the last byte having the highest weight.
abbrev pub digits_value : Bytes → ℕ
digits_value [] = 0
digits_value (b ∷ bs) = digits_value bs * 256 + b

digits_value-from_bytes : (bs : Bytes) → digits_value bs ≡ from_bytes bs
unfolding from_bytes
digits_value-from_bytes [] = refl
digits_value-from_bytes (b ∷ bs) = let ih = digits_value-from_bytes bs in omega arith

-- Eight bytes that are the two's complement of the integer.
abbrev pub IsTwosComplement : ℤ → Bytes → Type 0
IsTwosComplement (pos n) bs =
    (length bs ≡ 8) × IsBytes bs × (digits_value bs ≡ n) × (2 * digits_value bs < 2 ^ 64)
IsTwosComplement (negsuc n) bs =
    (length bs ≡ 8)
    × IsBytes bs
    × (digits_value bs + (n + 1) ≡ 2 ^ 64)
    × (2 ^ 64 ≤ 2 * digits_value bs)

to_bytes-value : (n : ℕ) → n < 256 ^ 8 → digits_value (to_bytes 8 n) ≡ n
to_bytes-value n h = digits_value-from_bytes (to_bytes 8 n) ∙ from_bytes-to_bytes 8 n h

encoded-IsTwosComplement : (z : ℤ) (bs : Bytes) → encode_int z ≡ some bs → IsTwosComplement z bs
encoded-IsTwosComplement (pos n) bs e =
    let h : n < 2 ^ 63 = encode_int_refuses (pos n) bs e in
    let fit : encode_int (pos n) ≡ some (to_bytes 8 n) =
      unfold encode_int in if_fits n (2 ^ 63) _ h in
    let same : to_bytes 8 n ≡ bs = some-injective _ bs (sym fit ∙ e) in
    let v = to_bytes-value n (omega arith) in
    subst (IsTwosComplement (pos n)) same
      (length-to_bytes 8 n, to_bytes-IsBytes 8 n, v, rw v (omega arith))
encoded-IsTwosComplement (negsuc n) bs e =
    let h : n < 2 ^ 63 = encode_int_refuses (negsuc n) bs e in
    let m = 2 ^ 64 - (n + 1) in
    let fit : encode_int (negsuc n) ≡ some (to_bytes 8 m) =
      unfold encode_int in if_fits n (2 ^ 63) _ h in
    let same : to_bytes 8 m ≡ bs = some-injective _ bs (sym fit ∙ e) in
    let v = to_bytes-value m (omega arith) in
    subst (IsTwosComplement (negsuc n)) same
      (length-to_bytes 8 m, to_bytes-IsBytes 8 m, rw v (omega arith), rw v (omega arith))

IsTwosComplement-decoded : (z : ℤ) (bs : Bytes) → IsTwosComplement z bs → decode_int bs ≡ z
IsTwosComplement-decoded (pos n) bs (l, b, v, h) =
    let same = digits_value-from_bytes bs in
    decode_int_lem bs 7 l ∙ (unfold to_signed in rw (← same) (ground (arith, v, h)))
IsTwosComplement-decoded (negsuc n) bs (l, b, v, h) =
    let same = digits_value-from_bytes bs in
    let back : 2 ^ 64 - (digits_value bs + 1) ≡ n = omega arith in
    decode_int_lem bs 7 l ∙ (unfold to_signed in rw (← same) (ground (arith, back, h)))

IsTwosComplement-IsBytes :
    (z : ℤ) (bs : Bytes) → IsTwosComplement z bs → (length bs ≡ 8) × IsBytes bs
IsTwosComplement-IsBytes (pos n) bs (l, b, v, h) = (l, b)
IsTwosComplement-IsBytes (negsuc n) bs (l, b, v, h) = (l, b)

-- An integer is encoded by the eight bytes of its two's complement, least first, and by no others: it is
-- encoded exactly if there are such bytes, that is for the integers of 64 bits.
pub encode_int_lem : (z : ℤ) (bs : Bytes) → (encode_int z ≡ some bs) ↔ IsTwosComplement z bs
encode_int_lem z bs = (
  encoded-IsTwosComplement z bs,
  λ h.
      let (l, b) = IsTwosComplement-IsBytes z bs h in
      ap encode_int (sym (IsTwosComplement-decoded z bs h)) ∙ encode_int-decode_int bs b l,
)
