-- ===== src/Client/Overview.antt =====
-- frontend/app/dashboard/page.tsx: the state of `DashboardPage`, its effect, and what it shows.
use shard_leak.Common.{
  ℕ, ◌+◌, ◌-◌, ◌≤◌, Bool, true, false, not, ◌&&◌, Option, none, some, List, [], ◌∷◌, map,
  if◌then◌else◌, get_or, is_some, keep_if, length, length-map, length-take, take, ltb, ◌++◌, ◌≡◌,
  refl, arith,
}
use shard_leak.Common.Int.{ℤ}
use shard_leak.Common.Texts.{Text, codes, decimal}
use shard_leak.Client.Api.{Algorithm, ApiKeyMeta, LimitConfig, Call, Result, ok, throw, message_of}
use shard_leak.Client.Calls

pub record OverviewPage : Type 0 where
  pub api_keys : List ApiKeyMeta
  pub limits : List LimitConfig
  pub loading : Bool
  pub error : Text

unfoldable pub initial : OverviewPage
initial = record { api_keys = []; limits = []; loading = true; error = [] }

-- The calls that the effect makes at once.
unfoldable pub load_calls : List Call
load_calls = Calls.list_keys ∷ Calls.list_limits ∷ []

-- `Promise.all` of two answers; `first_failed` tells which failure came first, where both fail.
unfoldable pub all_of {ℓ κ} :
    {A : Type ℓ} {B : Type κ} → Bool → Result A → Result B → Result (A × B)
all_of first_failed (ok a) (ok b) = ok (a, b)
all_of first_failed (throw e) (ok b) = throw e
all_of first_failed (ok a) (throw f) = throw f
all_of first_failed (throw e) (throw f) = throw (if first_failed then e else f)

-- The effect from the answers on; each list may be `null`.
unfoldable pub load_done :
    Result (Option (List ApiKeyMeta) × Option (List LimitConfig)) → OverviewPage → OverviewPage
load_done (ok lists) p = record p {
  api_keys = get_or lists.0 [];
  limits = get_or lists.1 [];
  loading = false;
}
load_done (throw e) p = record p { error = message_of e; loading = false }

unfoldable pub active_keys : OverviewPage → ℕ
active_keys p = length (keep_if (λ (k : ApiKeyMeta). not (is_some k.revoked_at)) p.api_keys)

-- `KPICard`: its value, where there is one, its sublabel, and whether it is accented.
pub record Card : Type 0 where
  pub value : Option ℕ
  pub sublabel : Text
  pub accent : Bool
  pub dim : Bool

abbrev pub no_metric : Card
no_metric = record {
  value = none;
  sublabel = codes "available in Phase 5";
  accent = false;
  dim = true;
}

pub record LimitLine : Type 0 where
  pub identifier : Text
  pub algorithm : Algorithm
  pub limit : ℤ
  pub window_seconds : ℤ

pub data LimitList : Type 0 where
  loading_limits : LimitList
  no_limits : LimitList
  limit_lines : List LimitLine → Option ℕ → LimitList

pub record OverviewView : Type 0 where
  pub active_limits : Card
  pub api_keys : Card
  pub total_requests : Card
  pub p95_latency : Card
  pub limit_list : LimitList

abbrev pub line_of : LimitConfig → LimitLine
line_of cfg = record {
  identifier = cfg.identifier;
  algorithm = cfg.algorithm;
  limit = cfg.limit;
  window_seconds = cfg.window_seconds;
}

-- The first five configurations, and how many more there are, where there are more.
unfoldable pub list_limits : List LimitConfig → LimitList
list_limits [] = no_limits
list_limits (cfg ∷ cfgs) =
    let limits = cfg ∷ cfgs in
    limit_lines (map line_of (take 5 limits))
      (if ltb 5 (length limits) then some (length limits - 5) else none)

unfoldable pub view : OverviewPage → OverviewView
view p = record {
  active_limits = record {
    value = if p.loading then none else some (length p.limits);
    sublabel = codes "rate-limit configurations";
    accent = not p.loading && ltb 0 (length p.limits);
    dim = false;
  };
  api_keys = record {
    value = if p.loading then none else some (active_keys p);
    sublabel = if p.loading then [] else decimal (length p.api_keys) ++ codes " total";
    accent = not p.loading && ltb 0 (active_keys p);
    dim = false;
  };
  total_requests = no_metric;
  p95_latency = no_metric;
  limit_list = if p.loading then loading_limits else list_limits p.limits;
}

-- How many configurations a list accounts for: the lines, and those that it counts as more.
unfoldable pub accounted : LimitList → ℕ
accounted loading_limits = 0
accounted no_limits = 0
accounted (limit_lines lines more) = length lines + get_or more 0

accounted-list_limits : (limits : List LimitConfig) → accounted (list_limits limits) ≡ length limits
unfolding accounted list_limits
accounted-list_limits [] = refl
accounted-list_limits (cfg ∷ cfgs) =
    rw (length-map line_of (take 5 (cfg ∷ cfgs)), length-take 5 (cfg ∷ cfgs)) (ground arith)

keep_if-le {ℓ} : {A : Type ℓ} (keep : A → Bool) (xs : List A) → length (keep_if keep xs) ≤ length xs
keep_if-le keep [] = omega arith
keep_if-le keep (x ∷ xs) = ground (arith, keep_if-le keep xs)

-- Once both calls have succeeded, the overview's list of limits accounts for every configuration of
-- the answer: the lines shown, and the number it gives as more, add up to the answer's length,
-- which is what the card above it shows; and the card of the keys shows the number of active keys,
-- no more than there are keys.
pub view-load_done :
    (keys : List ApiKeyMeta) (limits : List LimitConfig) (first_failed : Bool) (p : OverviewPage)
    → let shown = load_done (all_of first_failed (ok (some keys)) (ok (some limits))) p in
      (accounted (view shown).limit_list ≡ length limits)
      × ((view shown).active_limits.value ≡ some (length limits))
      × ((view shown).api_keys.value ≡ some (active_keys shown))
      × (active_keys shown ≤ length keys)
unfolding load_done all_of view active_keys
view-load_done keys limits first_failed p = (
  accounted-list_limits limits,
  refl,
  refl,
  keep_if-le (λ (k : ApiKeyMeta). not (is_some k.revoked_at)) keys,
)
