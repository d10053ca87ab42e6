-- ===== src/Client/Keys/Replay.antt =====
-- frontend/app/dashboard/api-keys/page.tsx: the list on the page against what the server acknowledged.
use shard_leak.Common.{
  Bool, true, false, List, [], ◌∷◌, map, if◌then◌else◌, get_or, is_some, ◌≡◌, refl, ap, arith, ◌∙◌,
}
use shard_leak.Common.Texts.{Text, text_eq}
use shard_leak.Client.Api.{ApiKeyMeta, ok, throw}
use shard_leak.Client.Keys.{
  KeysPage, Event, loaded, type_name, toggle_create, open_create, dismiss, submit, created,
  click_revoke, revoked, load_done, create_start, create_done, revoke_start, revoke_done,
  revoke_row, step, run,
}

-- What the server keeps of a key, as far as the page can act on it.
pub record StoredKey : Type 0 where
  pub id : Text
  pub name : Text
  pub is_revoked : Bool

-- What the server did when it answered an event with success.
pub data Ack : Type 0 where
  listed : List StoredKey → Ack
  added : Text → Text → Ack
  withdrawn : Text → Ack

abbrev pub stored_of : ApiKeyMeta → StoredKey
stored_of k = record { id = k.id; name = k.name; is_revoked = is_some k.revoked_at }

abbrev pub withdraw : Text → StoredKey → StoredKey
withdraw id k = record k { is_revoked = if text_eq k.id id then true else k.is_revoked }

-- The server's list, newest key first.
unfoldable pub apply : Ack → List StoredKey → List StoredKey
apply (listed ks) old = ks
apply (added id name) old = record { id = id; name = name; is_revoked = false } ∷ old
apply (withdrawn id) old = map (withdraw id) old

-- The acknowledgements among the events.
unfoldable pub acks : List Event → List Ack
acks [] = []
acks (loaded (ok ks) ∷ es) = listed (map stored_of (get_or ks [])) ∷ acks es
acks (created (ok k) ∷ es) = added k.meta.id k.meta.name ∷ acks es
acks (revoked id now (ok _) ∷ es) = withdrawn id ∷ acks es
acks (_ ∷ es) = acks es

unfoldable pub apply_all : List Ack → List StoredKey → List StoredKey
apply_all [] ks = ks
apply_all (a ∷ as') ks = apply_all as' (apply a ks)

map-revoke_row :
    (id now : Text) (ks : List ApiKeyMeta)
    → map stored_of (map (revoke_row id now) ks) ≡ map (withdraw id) (map stored_of ks)
map-revoke_row id now [] = refl
map-revoke_row id now (k ∷ ks) = ground (arith, map-revoke_row id now ks)

module _ where
  keys-create_start : (p : KeysPage) → (create_start p).0.keys ≡ p.keys
  unfolding create_start
  keys-create_start p = ground arith

  keys-revoke_start : (id : Text) (b : Bool) (p : KeysPage) → (revoke_start id b p).0.keys ≡ p.keys
  unfolding revoke_start
  keys-revoke_start id b p = ground arith

-- The page shows what the server has: after any events, whatever is typed, clicked or refused in
-- between, the keys of the page are those that the acknowledged listings, creations and revocations
-- make of the list before, in the same order and with the same keys revoked.
pub keys-run :
    (es : List Event) (p : KeysPage)
    → map stored_of (run es p).keys ≡ apply_all (acks es) (map stored_of p.keys)
unfolding run step acks apply_all apply load_done create_done revoke_done
keys-run [] p = refl
keys-run (loaded (ok ks) ∷ es) p = keys-run es (load_done (ok ks) p)
keys-run (loaded (throw e) ∷ es) p = keys-run es (load_done (throw e) p)
keys-run (type_name v ∷ es) p = keys-run es (step (type_name v) p)
keys-run (toggle_create ∷ es) p = keys-run es (step toggle_create p)
keys-run (open_create ∷ es) p = keys-run es (step open_create p)
keys-run (dismiss ∷ es) p = keys-run es (step dismiss p)
keys-run (submit ∷ es) p =
    keys-run es (create_start p).0
    ∙ ap (λ ks. apply_all (acks es) (map stored_of ks)) (keys-create_start p)
keys-run (created (ok k) ∷ es) p = keys-run es (create_done (ok k) p)
keys-run (created (throw e) ∷ es) p = keys-run es (create_done (throw e) p)
keys-run (click_revoke id b ∷ es) p =
    keys-run es (revoke_start id b p).0
    ∙ ap (λ ks. apply_all (acks es) (map stored_of ks)) (keys-revoke_start id b p)
keys-run (revoked id now (ok u) ∷ es) p =
    keys-run es (revoke_done id now (ok u) p)
    ∙ ap (apply_all (acks es)) (map-revoke_row id now p.keys)
keys-run (revoked id now (throw e) ∷ es) p = keys-run es (revoke_done id now (throw e) p)
