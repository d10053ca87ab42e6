-- ===== src/Backend/Redis/Memory.antt =====
-- A database in memory that answers as Redis does, and so has the laws. Its numbers are exact: the laws
-- say nothing of their rounding.
use shard_leak.Common.{
  ℕ, ◌+◌, ◌*◌, ◌≤◌, ◌≡◌, Option, none, some, List, [], ltb, if◌then◌else◌, get_or, refl, arith,
}
use shard_leak.Common.JsMap.{get, set, get-set}
use shard_leak.Common.Texts.{Text, text_eq, text_eq_refl}
use shard_leak.Backend.Redis.{Redis, Bucket, IsLawful, one_more}

-- A value, and the time from which it is gone, if there is one.
record Entry {ℓ} (V : Type ℓ) : Type ℓ where
  value : V
  gone : Option ℕ

record Tables : Type 0 where
  hashes : List (Text × Entry Bucket)
  counters : List (Text × Entry ℕ)

live {ℓ} : {V : Type ℓ} → ℕ → Option (Entry V) → Option V
live t none = none
live t (some e) = elim e.gone [
  | none ↦ some e.value
  | some end ↦ if ltb t end then some e.value else none
]

gone_of {ℓ} : {V : Type ℓ} → ℕ → Option (Entry V) → Option ℕ
gone_of t none = none
gone_of t (some e) = elim e.gone [ none ↦ none | some end ↦ if ltb t end then some end else none ]

ends {ℓ} : {V : Type ℓ} → Text → ℕ → List (Text × Entry V) → List (Text × Entry V)
ends k end m = elim (get k m) [
  | none ↦ m
  | some e ↦ set k (record { value = e.value; gone = some end }) m
]

pub memory : Redis
memory = record {
  Db = Tables;
  empty = record { hashes = []; counters = [] };
  double = λ x. x;
  reread = λ x. x;
  hmget = λ k t db. live t (get k db.hashes);
  hset = λ k b t db. record db {
    hashes = set k (record { value = b; gone = gone_of t (get k db.hashes) }) db.hashes;
  };
  expire = λ k ttl t db. record db { hashes = ends k (t + 1000 * ttl) db.hashes };
  get = λ k t db. live t (get k db.counters);
  incr = λ k t db. (
    record db {
      counters =
          set k
            (record {
              value = get_or (live t (get k db.counters)) 0 + 1;
              gone = gone_of t (get k db.counters);
            })
            db.counters;
    },
    get_or (live t (get k db.counters)) 0 + 1,
  );
  expireat = λ k secs t db. record db { counters = ends k (1000 * secs) db.counters };
}

module _ {ℓ} {V : Type ℓ} (k j : Text) (end : ℕ) (v : V) (g : Option ℕ)
    (m : List (Text × Entry V)) where
  abbrev before : Entry V
  before = record { value = v; gone = g }

  abbrev after : Entry V
  after = record { value = v; gone = some end }

  get-set_self : get k (set k before m) ≡ some before
  get-set_self = rw (get-set, text_eq_refl k)

  get-ends : get j (ends k end (set k before m)) ≡ (if text_eq k j then some after else get j m)
  unfolding ends
  get-ends =
      rw (get-set_self, ends)
        (ground (arith, get-set k j after (set k before m), get-set k j before m))

live-gone_of :
    (now t v : ℕ) (gone : Option ℕ) {n : ℕ}
    → now ≤ t
    → live now (some (record { value = v; gone = gone })) ≡ some n
    → live t (
        some
          (record { value = n + 1; gone = gone_of now (some (record { value = v; gone = gone })) }))
      ≡ one_more (live t (some (record { value = v; gone = gone })))
unfolding live gone_of
live-gone_of now t v none h found = ground arith
live-gone_of now t v (some end) h found = ground arith

live_bumped :
    (now t : ℕ) (o : Option (Entry ℕ)) {n : ℕ}
    → now ≤ t
    → live now o ≡ some n
    → live t (some (record { value = get_or (live now o) 0 + 1; gone = gone_of now o }))
      ≡ one_more (live t o)
live_bumped now t none {n} h found = let f : none ≡ some n = unfold live in found in cc
live_bumped now t (some e) {n} h found = rw found (live-gone_of now t e.value e.gone h found)

live_new :
    (now t end : ℕ) (o : Option (Entry ℕ))
    → live now o ≡ none
    → live t (some (record { value = get_or (live now o) 0 + 1; gone = some end }))
      ≡ (if ltb t end then some 1 else none)
live_new now t end o fresh = rw fresh (unfold live in refl)

pub memory-IsLawful : IsLawful memory
unfolding memory live gone_of get
memory-IsLawful = record {
  get-empty = λ k t. refl;
  get-expire-hset = λ k j b ttl now t db ne h. refl;
  incr_value = λ k now db. refl;
  get-incr = λ k j {n} now t db found h.
      rw get-set (ground (arith, live_bumped now t (get k db.counters) h found));
  get-expireat-incr = λ k j secs now t db fresh h.
      rw
        (get-ends k j (1000 * secs) (get_or (live now (get k db.counters)) 0 + 1)
          (gone_of now (get k db.counters)) db.counters)
        (ground (arith, live_new now t (1000 * secs) (get k db.counters) fresh));
}
