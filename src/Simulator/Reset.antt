-- ===== src/Simulator/Reset.antt =====
-- frontend-demo/lib/simulator.ts, `reset`: whose state it forgets.
use shard_leak.Common.{ℕ, ◌*◌, ◌≡◌, Bool, true, false, none, ◌∷◌, ◌++◌, refl, if◌then◌else◌}
use mathlib.Core.List.{append_assoc}
use shard_leak.Common.JsMap.{get, get-delete_each_self}
use shard_leak.Common.Texts.{Text, codes, decimal, starts_with, starts_with-append}
use shard_leak.Simulator.{
  Simulator, token_unit, tb_key, fw_key, key_suffix, peek_tokens, peek_window, reset,
}

module _ (id other : Text) (limit w : ℕ) (s : Simulator) where
  -- The test that `reset` makes of a key, without the prefix that all keys of a map share.
  abbrev hit : Bool
  hit = starts_with (id ++ codes ":") (other ++ key_suffix limit w)

  get-reset_tb :
      get (tb_key other limit w) (reset id s).tb
      ≡ (if hit then none else get (tb_key other limit w) s.tb)
  unfolding reset tb_key starts_with
  get-reset_tb =
      get-delete_each_self (starts_with (codes "tb:" ++ (id ++ codes ":"))) (tb_key other limit w)
        s.tb

  get-reset_fw :
      get (fw_key other limit w) (reset id s).fw
      ≡ (if hit then none else get (fw_key other limit w) s.fw)
  unfolding reset fw_key starts_with
  get-reset_fw =
      get-delete_each_self (starts_with (codes "fw:" ++ (id ++ codes ":"))) (fw_key other limit w)
        s.fw

-- The identifiers whose state `reset id` forgets: `id`, and every one that goes on with a colon.
abbrev pub extend : Text → Text → Text
extend id rest = id ++ (b':' ∷ rest)

hit_self : (id rest : Text) → starts_with (id ++ codes ":") (id ++ (b':' ∷ rest)) ≡ true
hit_self id rest =
    let e : id ++ (b':' ∷ rest) ≡ (id ++ codes ":") ++ rest = rw append_assoc in
    rw e (starts_with-append (id ++ codes ":") rest)

hit_extend :
    (id rest suffix : Text) → starts_with (id ++ codes ":") (extend id rest ++ suffix) ≡ true
hit_extend id rest suffix = rw append_assoc (hit_self id (rest ++ suffix))

module _ (id : Text) (limit w now : ℕ) (s : Simulator) where
  -- After `reset(id)` the identifier starts anew under both algorithms, whatever the limit and the
  -- window: `peekTokens` shows the whole limit, and `peekWindow` counts no request.
  peek-reset :
      (peek_tokens id limit w now (reset id s) ≡ limit * token_unit w)
      × ((peek_window id limit w now (reset id s)).count ≡ 0)
  unfolding peek_tokens peek_window
  peek-reset =
      rw
        (
          get-reset_tb id id limit w s,
          get-reset_fw id id limit w s,
          hit_self id (decimal limit ++ (b':' ∷ decimal w)),
        )
        (refl, refl)

  -- So does each other identifier that continues `id` with a colon.
  peek-extend :
      (rest : Text)
      → (peek_tokens (extend id rest) limit w now (reset id s) ≡ limit * token_unit w)
        × ((peek_window (extend id rest) limit w now (reset id s)).count ≡ 0)
  unfolding peek_tokens peek_window
  peek-extend rest =
      rw
        (
          get-reset_tb id (extend id rest) limit w s,
          get-reset_fw id (extend id rest) limit w s,
          hit_extend id rest (key_suffix limit w),
        )
        (refl, refl)

  -- After `reset(id)` two kinds of identifiers start anew under both algorithms, whatever the limit and
  -- the window: the identifier itself, and each other one that continues it with a colon, as `user:1`
  -- continues `user`. `peekTokens` shows the whole limit, and `peekWindow` counts no request.
  pub peek-reset-extend :
      (rest : Text)
      → ((peek_tokens id limit w now (reset id s) ≡ limit * token_unit w)
          × ((peek_window id limit w now (reset id s)).count ≡ 0))
        × (peek_tokens (extend id rest) limit w now (reset id s) ≡ limit * token_unit w)
        × ((peek_window (extend id rest) limit w now (reset id s)).count ≡ 0)
  peek-reset-extend rest = let other = peek-extend rest in (peek-reset, other.0, other.1)

  -- An identifier whose map keys do not continue `id` with a colon keeps its state.
  pub peek-reset_ne :
      (other : Text)
      → starts_with (id ++ codes ":") (other ++ key_suffix limit w) ≡ false
      → (peek_tokens other limit w now (reset id s) ≡ peek_tokens other limit w now s)
        × (peek_window other limit w now (reset id s) ≡ peek_window other limit w now s)
  unfolding peek_tokens peek_window
  peek-reset_ne other h =
      rw (get-reset_tb id other limit w s, get-reset_fw id other limit w s, h) (refl, refl)
