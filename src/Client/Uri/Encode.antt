-- ===== src/Client/Uri/Encode.antt =====
-- `encodeURIComponent`: which units its result can hold.
use shard_leak.Common.{
  ℕ, ◌+◌, ◌/◌, ◌%◌, ◌<◌, ◌≤◌, true, [], ◌∷◌, ◌++◌, ◌≡◌, ◌⊎◌, inl, inr, ltb, Bool-cases, refl, arith,
  All, All-append,
}
use shard_leak.Common.Texts.{Text}
use shard_leak.Client.Uri.{is_unreserved, hex_digit, percent_byte, encode_unit, encode_component}

-- A unit that separates nothing in a URL: `/`, `?`, `#` and `&` are none.
abbrev pub IsPlain : ℕ → Type 0
IsPlain c = (is_unreserved c ≡ true) ⊎ (c ≡ b'%')

hex_digit-IsPlain : (d : ℕ) → d < 16 → IsPlain (hex_digit d)
unfolding hex_digit
hex_digit-IsPlain d h = ground arith

percent_byte-IsPlain : (b : ℕ) → b < 256 → All IsPlain (percent_byte b)
unfolding percent_byte
percent_byte-IsPlain b h = (
  inr refl,
  (hex_digit-IsPlain (b / 16) (omega arith), (hex_digit-IsPlain (b % 16) (omega arith), tt)),
)

two_bytes :
    (c : ℕ) → c < 2048 → All IsPlain (percent_byte (192 + c / 64) ++ percent_byte (128 + c % 64))
two_bytes c h =
    All-append IsPlain (percent_byte (192 + c / 64)) (percent_byte (128 + c % 64))
      (percent_byte-IsPlain (192 + c / 64) (omega arith))
      (percent_byte-IsPlain (128 + c % 64) (omega arith))

three_bytes :
    (c : ℕ)
    → c < 65536
    → All IsPlain (
        percent_byte (224 + c / 4096)
        ++ (percent_byte (128 + c / 64 % 64) ++ percent_byte (128 + c % 64)))
three_bytes c h =
    All-append IsPlain (percent_byte (224 + c / 4096))
      (percent_byte (128 + c / 64 % 64) ++ percent_byte (128 + c % 64))
      (percent_byte-IsPlain (224 + c / 4096) (omega arith))
      (All-append IsPlain (percent_byte (128 + c / 64 % 64)) (percent_byte (128 + c % 64))
        (percent_byte-IsPlain (128 + c / 64 % 64) (omega arith))
        (percent_byte-IsPlain (128 + c % 64) (omega arith)))

encode_unit-IsPlain : (c : ℕ) → c < 65536 → All IsPlain (encode_unit c)
unfolding encode_unit
encode_unit-IsPlain c h = elim (Bool-cases (is_unreserved c)) [
  | inl free ↦ rw free (inl free, tt)
  | inr other ↦ rw other (elim (Bool-cases (ltb c 128)) [
    | inl short ↦ rw short (percent_byte-IsPlain c (ground arith))
    | inr long ↦ rw long (elim (Bool-cases (ltb c 2048)) [
      | inl two ↦ rw two (two_bytes c (ground arith))
      | inr three ↦ rw three (three_bytes c h)
    ])
  ])
]

-- A UTF-16 unit that is a code point by itself: no half of a surrogate pair.
abbrev pub IsScalar : ℕ → Type 0
IsScalar c = (c < 65536) × ((c < 55296) ⊎ (57344 ≤ c))

pub encode_component-IsPlain : (s : Text) → All IsScalar s → All IsPlain (encode_component s)
unfolding encode_component
encode_component-IsPlain [] h = tt
encode_component-IsPlain (c ∷ s) h =
    All-append IsPlain (encode_unit c) (encode_component s) (encode_unit-IsPlain c h.0.0)
      (encode_component-IsPlain s h.1)
