-- ===== src/Client/Uri.antt =====
-- `encodeURIComponent` and `trim` of JavaScript strings, as frontend/lib/api.ts and the pages use them.
--
-- A unit from 128 on is encoded as that code point's UTF-8; surrogates are not modelled.
pub mod Trim
pub mod Encode
use shard_leak.Common.{
  ℕ, ◌+◌, ◌-◌, ◌*◌, ◌/◌, ◌%◌, ◌≤◌, ◌<◌, ◌≡◌, ◌≢◌, ◌⊎◌, Bool, true, false, List, [], ◌∷◌, ◌++◌, ◌&&◌,
  ◌||◌, ltb, leb, ◌==◌, if◌then◌else◌, All, All-append, arith, refl,
}
use shard_leak.Common.Texts.{Text}

-- `A-Z a-z 0-9 - _ . ! ~ * ' ( )`
abbrev pub is_unreserved : ℕ → Bool
is_unreserved c =
    (leb b'A' c && leb c b'Z')
    || (leb b'a' c && leb c b'z')
    || (leb b'0' c && leb c b'9')
    || c == b'-'
    || c == b'_'
    || c == b'.'
    || c == b'!'
    || c == b'~'
    || c == b'*'
    || c == 39
    || c == b'('
    || c == b')'

unfoldable pub hex_digit : ℕ → ℕ
hex_digit d = if ltb d 10 then b'0' + d else b'A' + (d - 10)

-- `%XX`
unfoldable pub percent_byte : ℕ → Text
unfolding hex_digit
percent_byte b = b'%' ∷ hex_digit (b / 16) ∷ hex_digit (b % 16) ∷ []

unfoldable pub encode_unit : ℕ → Text
encode_unit c =
    if is_unreserved c
    then c ∷ []
    else if ltb c 128
    then percent_byte c
    else if ltb c 2048
    then percent_byte (192 + c / 64) ++ percent_byte (128 + c % 64)
    else percent_byte (224 + c / 4096)
      ++ (percent_byte (128 + c / 64 % 64) ++ percent_byte (128 + c % 64))

unfoldable pub encode_component : Text → Text
unfolding encode_unit percent_byte
encode_component [] = []
encode_component (c ∷ s) = encode_unit c ++ encode_component s

-- The whitespace of `trim`.
abbrev pub is_space : ℕ → Bool
is_space c =
    (leb 9 c && leb c 13)
    || c == 32
    || c == 160
    || c == 5760
    || (leb 8192 c && leb c 8202)
    || c == 8232
    || c == 8233
    || c == 8239
    || c == 8287
    || c == 12288
    || c == 65279

unfoldable pub trim_start : Text → Text
trim_start [] = []
trim_start (c ∷ s) = if is_space c then trim_start s else c ∷ s

-- A unit before a text that has no space at its end.
unfoldable pub join_end : ℕ → Text → Text
join_end c [] = if is_space c then [] else c ∷ []
join_end c (d ∷ r) = c ∷ d ∷ r

-- Without the spaces at the end.
unfoldable pub trim_end : Text → Text
unfolding join_end
trim_end [] = []
trim_end (c ∷ s) = join_end c (trim_end s)

unfoldable pub trim : Text → Text
unfolding trim_start trim_end
trim s = trim_end (trim_start s)
