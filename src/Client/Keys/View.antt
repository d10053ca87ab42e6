-- ===== src/Client/Keys/View.antt =====
-- frontend/app/dashboard/api-keys/page.tsx: what `APIKeysPage` shows, styles and fixed texts left out.
use shard_leak.Common.{Bool, not, Option, none, some, List, [], ◌∷◌, map, if◌then◌else◌}
use shard_leak.Common.Texts.{Text, codes}
use shard_leak.Client.Keys.{KeysPage, NewKey, Row, row_of}

-- The part that an error or another text stands in is shown if the text is not empty.
abbrev pub shown : Text → Option Text
shown [] = none
shown (c ∷ s) = some (c ∷ s)

pub record FormView : Type 0 where
  pub error : Option Text
  pub name : Text
  pub enabled : Bool
  pub button : Text

pub data Table : Type 0 where
  loading_keys : Table
  no_keys : Table
  rows : List Row → Table

pub record KeysView : Type 0 where
  pub fetch_error : Option Text
  pub secret : Option NewKey
  pub form : Option FormView
  pub table : Table

unfoldable pub form_view : KeysPage → FormView
form_view p = record {
  error = shown p.form_error;
  name = p.key_name;
  enabled = not p.creating;
  button = if p.creating then codes "Creating..." else codes "Create";
}

unfoldable pub table_view : KeysPage → Table
table_view p =
    if p.loading
    then loading_keys
    else elim p.keys [ [] ↦ no_keys | k ∷ ks ↦ rows (map (row_of p.revoking) (k ∷ ks)) ]

unfoldable pub view : KeysPage → KeysView
view p = record {
  fetch_error = shown p.fetch_error;
  secret = p.new_key;
  form = if p.show_create then some (form_view p) else none;
  table = table_view p;
}
