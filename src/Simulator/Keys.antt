-- ===== src/Simulator/Keys.antt =====
-- frontend-demo/lib/simulator.ts, `tbKey` and `fwKey`: the map key of a triple names that triple only.
use shard_leak.Common.{ℕ, Bool, ◌&&◌, ◌∷◌, ◌++◌, ◌≡◌, ◌==◌, arith}
use shard_leak.Common.Texts.{
  Text, decimal, decimal-injective, decimal-NoColon, split_last, text_eq, text_eq_iff,
}
use mathlib.Core.List.{append_assoc}
use shard_leak.Simulator.{key_suffix, tb_key, fw_key}

-- The three parts of `${id}:${limit}:${win}` can be read back, whatever the identifier holds.
suffix-injective :
    (id id' : Text) (limit limit' win win' : ℕ)
    → id ++ key_suffix limit win ≡ id' ++ key_suffix limit' win'
    → (id ≡ id') × (limit ≡ limit') × (win ≡ win')
suffix-injective id id' limit limit' win win' e =
    let (outer, wins) =
      split_last (id ++ (b':' ∷ decimal limit)) (id' ++ (b':' ∷ decimal limit')) (decimal win)
        (decimal win') (decimal-NoColon win) (decimal-NoColon win')
        (rw (append_assoc, append_assoc) e) in
    let (ids, limits) =
      split_last id id' (decimal limit) (decimal limit') (decimal-NoColon limit)
        (decimal-NoColon limit') outer in
    (ids, decimal-injective limit limit' limits, decimal-injective win win' wins)

-- Two checks meet the same map entry: the same identifier, limit and window.
abbrev pub same_triple : Text → ℕ → ℕ → Text → ℕ → ℕ → Bool
same_triple id limit win id' limit' win' = text_eq id id' && (limit == limit' && win == win')

module _ (id id' : Text) (limit limit' win win' : ℕ) where
  pub tb_key-injective :
      tb_key id limit win ≡ tb_key id' limit' win' → (id ≡ id') × (limit ≡ limit') × (win ≡ win')
  unfolding tb_key
  tb_key-injective e =
      let e' : id ++ key_suffix limit win ≡ id' ++ key_suffix limit' win' = cc in
      suffix-injective id id' limit limit' win win' e'

  pub fw_key-injective :
      fw_key id limit win ≡ fw_key id' limit' win' → (id ≡ id') × (limit ≡ limit') × (win ≡ win')
  unfolding fw_key
  fw_key-injective e =
      let e' : id ++ key_suffix limit win ≡ id' ++ key_suffix limit' win' = cc in
      suffix-injective id id' limit limit' win win' e'

  pub text_eq-tb_key :
      text_eq (tb_key id limit win) (tb_key id' limit' win')
      ≡ same_triple id limit win id' limit' win'
  text_eq-tb_key = ground (
    arith,
    text_eq_iff (tb_key id limit win) (tb_key id' limit' win'),
    text_eq_iff id id',
    tb_key-injective,
  )

  pub text_eq-fw_key :
      text_eq (fw_key id limit win) (fw_key id' limit' win')
      ≡ same_triple id limit win id' limit' win'
  text_eq-fw_key = ground (
    arith,
    text_eq_iff (fw_key id limit win) (fw_key id' limit' win'),
    text_eq_iff id id',
    fw_key-injective,
  )
