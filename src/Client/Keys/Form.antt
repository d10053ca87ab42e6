-- ===== src/Client/Keys/Form.antt =====
-- frontend/app/dashboard/api-keys/page.tsx: the create form and the `Revoke` buttons.
use shard_leak.Common.{ℕ, true, false, none, some, [], ◌∷◌, is_some, ◌≡◌, ◌≢◌, refl, ap, arith}
use shard_leak.Common.Texts.{Text, text_eq_iff}
use shard_leak.Client.Api.{ApiKeyMeta, ApiKeyCreated, Call, Result, ok, throw}
use shard_leak.Client.Calls
use shard_leak.Client.Uri.{trim}
use shard_leak.Client.Uri.Trim.{trim-trim}
use shard_leak.Client.Keys.{
  KeysPage, meta_of, create_named, create_start, create_done, revoke_start, revoke_done, row_of,
}

named :
    (name : Text) (p : KeysPage) {c : Call}
    → (create_named name p).1 ≡ some c
    → trim name ≡ name
    → (sent : Text) × (c ≡ Calls.create_key sent)
      × (sent ≢ [])
      × (trim sent ≡ sent)
      × ((create_named name p).0.creating ≡ true)
unfolding create_named
named [] p h t = cc
named (d ∷ name) p h t = (d ∷ name, cc, (λ e. cc), t, refl)

-- The form sends no blank name and no name with spaces around it: a submission that makes a call
-- sends a name that is not empty and that `trim` leaves as it is, and marks the creation as begun.
pub create_start-trimmed :
    (p : KeysPage) {c : Call}
    → (create_start p).1 ≡ some c
    → (sent : Text) × (c ≡ Calls.create_key sent)
      × (sent ≢ [])
      × (trim sent ≡ sent)
      × ((create_start p).0.creating ≡ true)
unfolding create_start
create_start-trimmed p h = named (trim p.key_name) p h (trim-trim p.key_name)

uncons : (s : Text) → s ≢ [] → (c : ℕ) × (r : Text) × (s ≡ c ∷ r)
uncons [] h = absurd (h refl)
uncons (c ∷ r) h = (c, r, refl)

create_start-begins :
    (p : KeysPage) (c : ℕ) (name : Text)
    → trim p.key_name ≡ c ∷ name
    → create_start p
      ≡ (record p { form_error = []; creating = true }, some (Calls.create_key (c ∷ name)))
unfolding create_start
create_start-begins p c name e = ap (λ n. create_named n p) e

-- The Enter key submits the form while a creation is in flight. With a name that is not blank, a
-- second submission makes the same call again; when both succeed the page shows the second secret
-- only, though both keys are in the list.
pub create_twice :
    (p : KeysPage) (a b : ApiKeyCreated)
    → trim p.key_name ≢ []
    → let first = create_start p in
      let second = create_start first.0 in
      let end = create_done (ok b) (create_done (ok a) second.0) in
      (first.0.creating ≡ true)
      × (second.1 ≡ first.1)
      × (is_some second.1 ≡ true)
      × (end.new_key ≡ some (record { name = b.meta.name; key = b.key }))
      × (end.keys ≡ meta_of b ∷ meta_of a ∷ p.keys)
unfolding create_done
create_twice p a b h =
    let (c, name, e) = uncons (trim p.key_name) h in
    let begun : KeysPage = record p { form_error = []; creating = true } in
    rw (create_start-begins p c name e, create_start-begins begun c name e)
      (refl, refl, refl, refl, refl)

-- One field holds the revocation in flight. When a second one is begun for another key, the button
-- of the first is enabled again at once, and when the first ends, so is the button of the second.
-- Both keys are active.
pub revoke_overlap :
    (p : KeysPage) (a b : ApiKeyMeta) (now : Text) (r : Result (Unit {0}))
    → a.id ≢ b.id
    → a.revoked_at ≡ none
    → b.revoked_at ≡ none
    → let both = (revoke_start b.id true (revoke_start a.id true p).0).0 in
      ((row_of both.revoking a).revoke_enabled ≡ some true)
      × ((row_of both.revoking b).revoke_enabled ≡ some false)
      × ((row_of (revoke_done a.id now r both).revoking b).revoke_enabled ≡ some true)
unfolding revoke_start revoke_done row_of
revoke_overlap p a b now (ok u) h ha hb =
    ground (arith, text_eq_iff a.id b.id, text_eq_iff b.id a.id, text_eq_iff b.id b.id)
revoke_overlap p a b now (throw e) h ha hb =
    ground (arith, text_eq_iff a.id b.id, text_eq_iff b.id a.id, text_eq_iff b.id b.id)
