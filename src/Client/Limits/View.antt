-- ===== src/Client/Limits/View.antt =====
-- frontend/app/dashboard/limits/page.tsx: what `LimitsPage` shows, styles and fixed texts left out.
use shard_leak.Common.{Bool, not, Option, none, some, List, [], ◌∷◌, map, if◌then◌else◌, false}
use shard_leak.Common.Int.{ℤ}
use shard_leak.Common.Texts.{Text, codes, text_eq}
use shard_leak.Client.Api.{Algorithm, token_bucket, fixed_window, LimitConfig}
use shard_leak.Client.Keys.View.{shown}
use shard_leak.Client.Limits.{LimitsPage}

-- `ALGO_LABELS`
unfoldable pub algo_label : Algorithm → Text
algo_label token_bucket = codes "Token Bucket"
algo_label fixed_window = codes "Fixed Window"

pub record FormView : Type 0 where
  pub error : Option Text
  pub identifier : Text
  pub algorithm : Algorithm
  pub limit : ℤ
  pub window_seconds : ℤ
  pub enabled : Bool
  pub button : Text

pub record Row : Type 0 where
  pub identifier : Text
  pub label : Text
  pub limit : ℤ
  pub window_seconds : ℤ
  pub delete_enabled : Bool

pub data Table : Type 0 where
  loading_configs : Table
  no_configs : Table
  rows : List Row → Table

pub record LimitsView : Type 0 where
  pub fetch_error : Option Text
  pub form : Option FormView
  pub table : Table

abbrev pub is_deleting : Option Text → Text → Bool
is_deleting none id = false
is_deleting (some other) id = text_eq other id

unfoldable pub row_view : Option Text → LimitConfig → Row
unfolding algo_label
row_view deleting cfg = record {
  identifier = cfg.identifier;
  label = algo_label cfg.algorithm;
  limit = cfg.limit;
  window_seconds = cfg.window_seconds;
  delete_enabled = not (is_deleting deleting cfg.identifier);
}

unfoldable pub form_view : LimitsPage → FormView
form_view p = record {
  error = shown p.form_error;
  identifier = p.identifier;
  algorithm = p.algorithm;
  limit = p.limit;
  window_seconds = p.window_seconds;
  enabled = not p.creating;
  button = if p.creating then codes "Creating..." else codes "Create Configuration";
}

unfoldable pub table_view : LimitsPage → Table
table_view p =
    if p.loading
    then loading_configs
    else elim p.configs [ [] ↦ no_configs | c ∷ cs ↦ rows (map (row_view p.deleting) (c ∷ cs)) ]

unfoldable pub view : LimitsPage → LimitsView
view p = record {
  fetch_error = shown p.fetch_error;
  form = if p.show_create then some (form_view p) else none;
  table = table_view p;
}
