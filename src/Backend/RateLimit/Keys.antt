-- ===== src/Backend/RateLimit/Keys.antt =====
-- The keys of backend/internal/ratelimit: an identifier's are its own, and a bucket's is no window's.
use shard_leak.Common.{ℕ, ◌/◌, ◌≡◌, true, false, refl, arith}
use shard_leak.Common.Texts.{Text, text_eq, text_eq_iff, decimal, decimal-NoColon, split_last}
use shard_leak.Backend.RateLimit.{bucket_key, window_key}
use shard_leak.Backend.RateLimit.WindowRun.{key_at}
use shard_leak.Simulator.{window_of}

pub text_eq-bucket_key : (a b : Text) → text_eq (bucket_key a) (bucket_key b) ≡ text_eq a b
unfolding text_eq
text_eq-bucket_key a b = refl

text_eq-window_key : (a b : Text) → text_eq (window_key a) (window_key b) ≡ text_eq a b
unfolding text_eq
text_eq-window_key a b = refl

module _ (a b : Text) (v w t u : ℕ) where
  pub bucket_key-key_at : text_eq (bucket_key a) (key_at (window_key b) w t) ≡ false
  unfolding text_eq
  bucket_key-key_at = refl

  pub key_at-bucket_key : text_eq (key_at (window_key a) w t) (bucket_key b) ≡ false
  unfolding text_eq
  key_at-bucket_key = refl

  same_identifier :
      text_eq (key_at (window_key a) v t) (key_at (window_key b) w u) ≡ true → text_eq a b ≡ true
  same_identifier e =
      let keys =
        split_last (window_key a) (window_key b) (decimal (window_of v (t / 1000)))
          (decimal (window_of w (u / 1000))) (decimal-NoColon (window_of v (t / 1000)))
          (decimal-NoColon (window_of w (u / 1000)))
          ((text_eq_iff (key_at (window_key a) v t) (key_at (window_key b) w u)).0 e) in
      rw (← text_eq-window_key a b) ((text_eq_iff (window_key a) (window_key b)).1 keys.0)

  pub text_eq-key_at :
      text_eq a b ≡ false → text_eq (key_at (window_key a) v t) (key_at (window_key b) w u) ≡ false
  text_eq-key_at h = ground (arith, same_identifier)
