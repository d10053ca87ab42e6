-- ===== src/Client/Uri/Trim.antt =====
-- `trim`: no space is left at either end, and nothing changes when it is applied again.
use shard_leak.Common.{ℕ, false, [], ◌∷◌, ◌≡◌, inl, inr, Bool-cases, refl, ◌∙◌, ap}
use shard_leak.Common.Texts.{Text}
use shard_leak.Client.Uri.{is_space, trim_start, join_end, trim_end, trim}

-- The text begins with no space.
abbrev pub Flush : Text → Type 0
Flush [] = Unit
Flush (c ∷ s) = is_space c ≡ false

trim_start-Flush : (s : Text) → Flush (trim_start s)
unfolding trim_start
trim_start-Flush [] = tt
trim_start-Flush (c ∷ s) = elim (Bool-cases (is_space c)) [
  | inl space ↦ rw space (trim_start-Flush s)
  | inr other ↦ rw other other
]

trim_start_fix : (s : Text) → Flush s → trim_start s ≡ s
unfolding trim_start
trim_start_fix [] h = refl
trim_start_fix (c ∷ s) h = rw h

join_end-Flush : (c : ℕ) (r : Text) → is_space c ≡ false → Flush (join_end c r)
unfolding join_end
join_end-Flush c [] h = rw h h
join_end-Flush c (d ∷ r) h = h

trim_end-join_end : (c : ℕ) (r : Text) → trim_end r ≡ r → trim_end (join_end c r) ≡ join_end c r
unfolding trim_end
trim_end-join_end c [] h = elim (Bool-cases (is_space c)) [
  | inl space ↦ rw space
  | inr other ↦ rw (other, other)
]
trim_end-join_end c (d ∷ r) h = ap (join_end c) h

trim_end-Flush : (s : Text) → Flush s → Flush (trim_end s)
unfolding trim_end
trim_end-Flush [] h = tt
trim_end-Flush (c ∷ s) h = join_end-Flush c (trim_end s) h

trim_end_idem : (s : Text) → trim_end (trim_end s) ≡ trim_end s
unfolding trim_end
trim_end_idem [] = refl
trim_end_idem (c ∷ s) = trim_end-join_end c (trim_end s) (trim_end_idem s)

pub trim-trim : (s : Text) → trim (trim s) ≡ trim s
unfolding trim
trim-trim s =
    ap trim_end (
      trim_start_fix (trim_end (trim_start s)) (trim_end-Flush (trim_start s) (trim_start-Flush s)))
    ∙ trim_end_idem (trim_start s)
