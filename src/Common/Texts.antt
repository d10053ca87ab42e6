-- ===== src/Common/Texts.antt =====
-- JavaScript strings as lists of code units: equality, `startsWith`, and `String(n)` of a natural
-- number, which template literals apply to the numbers in them.
use Prim.Native.Char.{code}
use Prim.Native.String.{String}
use Prim.Native.Nat.{ℕ, zero, suc, ◌+◌, ◌-◌, ◌*◌, ◌/◌, ◌%◌, ◌<◌}
use mathlib.Core.Path.{◌≡◌, refl, ap, sym, ◌∙◌}
use mathlib.Core.Logic.{◌≢◌, ◌↔◌}
use mathlib.Core.Bool.{Bool, true, false, ◌&&◌}
use mathlib.Core.List.{List, [], ◌∷◌, ◌++◌}
use native.Mathlib.Omega.{arith}
use shard_leak.Common.Tests.{if◌then◌else◌, ltb, ◌==◌}
use shard_leak.Common.Lists.{All}

abbrev pub Text : Type 0
Text = List ℕ

-- The code units of a literal.
abbrev pub codes : String → Text
codes String.[] = []
codes (String.◌∷◌ c s) = code c ∷ codes s

unfoldable pub text_eq : Text → Text → Bool
text_eq [] [] = true
text_eq [] (y ∷ ys) = false
text_eq (x ∷ xs) [] = false
text_eq (x ∷ xs) (y ∷ ys) = x == y && text_eq xs ys

text_eq→eq : (xs ys : Text) → text_eq xs ys ≡ true → xs ≡ ys
unfolding text_eq
text_eq→eq [] [] h = refl
text_eq→eq [] (y ∷ ys) h = cc
text_eq→eq (x ∷ xs) [] h = cc
text_eq→eq (x ∷ xs) (y ∷ ys) h = ground (arith, text_eq→eq xs ys)

pub text_eq_refl : (xs : Text) → text_eq xs xs ≡ true
unfolding text_eq
text_eq_refl [] = refl
text_eq_refl (x ∷ xs) = ground (arith, text_eq_refl xs)

pub text_eq_iff : (xs ys : Text) → (text_eq xs ys ≡ true) ↔ (xs ≡ ys)
text_eq_iff xs ys = (text_eq→eq xs ys, λ e. rw e (text_eq_refl ys))

-- `s.startsWith(p)`
unfoldable pub starts_with : Text → Text → Bool
starts_with [] s = true
starts_with (c ∷ p) [] = false
starts_with (c ∷ p) (d ∷ s) = c == d && starts_with p s

pub starts_with-append : (p s : Text) → starts_with p (p ++ s) ≡ true
unfolding starts_with
starts_with-append [] s = refl
starts_with-append (c ∷ p) s = ground (arith, starts_with-append p s)

-- The digits of `n` before `out`; the fuel is a bound on the number of digits.
unfoldable pub digits : ℕ → ℕ → Text → Text
digits zero n out = out
digits (suc fuel) n out =
    let rest = digits fuel (n / 10) ((b'0' + n % 10) ∷ out) in
    if ltb n 10 then (b'0' + n % 10) ∷ out else rest

-- `String(n)`
unfoldable pub decimal : ℕ → Text
unfolding digits
decimal n = digits (suc n) n []

-- The number that digits spell behind `n`.
read_from : ℕ → Text → ℕ
read_from n [] = n
read_from n (c ∷ s) = read_from (n * 10 + (c - b'0')) s

read_from-digits :
    (fuel n : ℕ) (out : Text) → n < fuel → read_from 0 (digits fuel n out) ≡ read_from n out
unfolding digits read_from
read_from-digits zero n out h = elim h [ ]
read_from-digits (suc fuel) n out h =
    ground (arith, read_from-digits fuel (n / 10) ((b'0' + n % 10) ∷ out))

read_from-decimal : (n : ℕ) → read_from 0 (decimal n) ≡ n
unfolding decimal read_from
read_from-decimal n = read_from-digits (suc n) n [] (omega arith)

pub decimal-injective : (m n : ℕ) → decimal m ≡ decimal n → m ≡ n
decimal-injective m n e = sym (read_from-decimal m) ∙ ap (read_from 0) e ∙ read_from-decimal n

-- No code unit of the text is a colon.
abbrev pub NoColon : Text → Type 0
NoColon = All (λ c. c ≢ b':')

digits-NoColon : (fuel n : ℕ) (out : Text) → NoColon out → NoColon (digits fuel n out)
unfolding digits
digits-NoColon zero n out h = h
digits-NoColon (suc fuel) n out h =
    ground (arith, digits-NoColon fuel (n / 10) ((b'0' + n % 10) ∷ out) (omega arith, h))

pub decimal-NoColon : (n : ℕ) → NoColon (decimal n)
unfolding decimal
decimal-NoColon n = digits-NoColon (suc n) n [] tt

not-NoColon : (xs ys : Text) → ¬ NoColon (xs ++ (b':' ∷ ys))
not-NoColon [] ys h = h.0 refl
not-NoColon (x ∷ xs) ys h = not-NoColon xs ys h.1

-- A text splits at its last colon in one way.
pub split_last :
    (xs ys a b : Text)
    → NoColon a
    → NoColon b
    → xs ++ (b':' ∷ a) ≡ ys ++ (b':' ∷ b)
    → (xs ≡ ys) × (a ≡ b)
split_last [] [] a b h k e = (refl, cc)
split_last [] (y ∷ ys) a b h k e =
    let e' : a ≡ ys ++ (b':' ∷ b) = cc in absurd (not-NoColon ys b (rw e' at h))
split_last (x ∷ xs) [] a b h k e =
    let e' : xs ++ (b':' ∷ a) ≡ b = cc in absurd (not-NoColon xs a (rw (← e') at k))
split_last (x ∷ xs) (y ∷ ys) a b h k e =
    let e' : xs ++ (b':' ∷ a) ≡ ys ++ (b':' ∷ b) = cc in
    let (p, q) = split_last xs ys a b h k e' in (cc, q)
