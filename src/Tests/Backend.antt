-- ===== src/Tests/Backend.antt =====
-- backend/internal: the theorems on a database in memory.
use shard_leak.Common.{ℕ, Bool, ltb, ◌≡◌, some, none, List, [], ◌∷◌, arith, length}
use shard_leak.Common.Int.{pos, negsuc}
use shard_leak.Common.Texts.{Text, codes}
use shard_leak.Backend.Redis.Memory.{memory, memory-IsLawful}
use shard_leak.Backend.RateLimit.{Link, up, unreachable, cut}
use shard_leak.Backend.RateLimit.Agreement.{
  Policy, Call, InOrder, of_windows, service_answers, simulator_answers,
}
use shard_leak.Backend.RateLimit.Agreement.Service.{service-simulator}
use shard_leak.Backend.Check.{CheckRequest}
use shard_leak.Backend.Check.Tally.{Attempt}
use shard_leak.Backend.Check.Simulated.{attempt}
use shard_leak.Simulator
use shard_leak.Simulator.{new_simulator}

abbrev two_in_ten : Text → Policy
two_in_ten id = record { limit = 2; window_seconds = 10 }

abbrev call_of : Link → Simulator.Algorithm → ℕ → Call
call_of link algorithm now = record {
  link = link;
  identifier = codes "user:1";
  algorithm = algorithm;
  now_ms = now;
  spent = 0;
  random = 0;
}

-- Three requests on the bucket, of which one answer is lost, and three on the window.
abbrev calls : List Call
calls =
    call_of up Simulator.token_bucket 1000
    ∷ call_of cut Simulator.token_bucket 1100
    ∷ call_of up Simulator.fixed_window 1200
    ∷ call_of unreachable Simulator.fixed_window 1300
    ∷ call_of up Simulator.token_bucket 1400
    ∷ call_of up Simulator.fixed_window 12000
    ∷ []

calls-InOrder : InOrder 0 calls
calls-InOrder =
    (omega arith, (omega arith, (omega arith, (omega arith, (omega arith, (omega arith, tt))))))

service-simulator_example :
    of_windows calls (service_answers memory two_in_ten calls memory.empty)
    ≡ of_windows calls (simulator_answers two_in_ten calls new_simulator)
service-simulator_example =
    service-simulator two_in_ten (λ id. omega arith) (λ id. omega arith) memory memory-IsLawful
      calls calls-InOrder

-- A body is decoded if its identifier is short.
abbrev is_short : CheckRequest → Bool
is_short r = ltb (length r.identifier) 4000

-- A body that is no JSON, one with a negative limit, and two that pass.
abbrev attempts : List Attempt
attempts =
    record { link = up; now_ms = 900; body = none }
    ∷ record {
      link = up;
      now_ms = 950;
      body = some (record {
        identifier = codes "user:1";
        limit = negsuc 0;
        window_seconds = pos 10;
        algorithm = codes "token_bucket";
      });
    }
    ∷ attempt is_short two_in_ten (call_of up Simulator.token_bucket 1000)
    ∷ attempt is_short two_in_ten (call_of unreachable Simulator.fixed_window 1100)
    ∷ []
