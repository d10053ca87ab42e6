-- ===== src/Backend/RateLimit/Agreement/Entries.antt =====
-- The entries of the simulator that the calls of one policy use, and what a call leaves in them.
use shard_leak.Common.{ℕ, ◌/◌, ◌≡◌, Option, if◌then◌else◌, refl, arith}
use shard_leak.Common.JsMap.{get}
use shard_leak.Common.Texts.{Text, text_eq, text_eq_iff}
use shard_leak.Backend.RateLimit.Agreement.{Policy}
use shard_leak.Simulator
use shard_leak.Simulator.{
  Simulator, TbState, FwState, tb_key, fw_key, take_token, count_request, check, check_token_bucket,
  check_fixed_window,
}
use shard_leak.Simulator.Schedule
use shard_leak.Simulator.Schedule.{serve}
use shard_leak.Simulator.Window
use shard_leak.Simulator.Window.{entry}

module _ (policy : Text → Policy) where
  abbrev pub lim : Text → ℕ
  lim id = (policy id).limit

  abbrev pub win : Text → ℕ
  win id = (policy id).window_seconds

  abbrev pub window_at : Text → Simulator → Option FwState
  window_at id s = get (fw_key id (lim id) (win id)) s.fw

  module _ (id0 : Text) (now spent random : ℕ) (s : Simulator) where
    abbrev pub call : Simulator.Algorithm → Schedule.Request
    call algorithm = record {
      opts = record {
        identifier = id0;
        algorithm = algorithm;
        limit = lim id0;
        window_seconds = win id0;
      };
      now_ms = now;
      spent = spent;
      random = random;
    }

    abbrev pub after : Simulator.Algorithm → Simulator
    after algorithm = (serve (call algorithm) s).0

    pub decision-fixed_window :
        (serve (call Simulator.fixed_window) s).1.decision
        ≡ (count_request (lim id0) (win id0) (now / 1000) (window_at id0 s)).1
    unfolding check check_fixed_window
    decision-fixed_window = refl

    module _ (id : Text) where
      pub window_at-after : window_at id (after Simulator.fixed_window) ≡ (
          if text_eq id0 id
          then entry (lim id) (win id) (now / 1000) (window_at id s)
          else window_at id s)
      window_at-after = ground (
        arith,
        text_eq_iff id0 id,
        Window.get-serve id (lim id) (win id) (call Simulator.fixed_window) s,
      )

      pub window_at-token_bucket : window_at id (after Simulator.token_bucket) ≡ window_at id s
      window_at-token_bucket = Window.get-serve id (lim id) (win id) (call Simulator.token_bucket) s
