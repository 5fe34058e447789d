-- ===== src/External/Redis.antt =====
-- `redis.asyncio.Redis`: the commands that src/security/token_cache.py sends.
use events_api.Common.{
  ℕ, ◌<◌, ◌-◌, String, ◌≡◌, false, not, ◌&&◌, ◌||◌, Option, none, some, List, ltb, elem, ◌==◌,
  Distinct, if◌then◌else◌,
}
use events_api.Common.Int.{ℤ, pos, negsuc}

-- `State` is the server's key space. `elapse n` is the passing of `n` seconds on the server.
-- A command on a key of another type is an error of the server, which is left out: the key
-- families of the program are disjoint (TokenCache/Keys.antt).
pub record Redis : Type 1 where
  pub State : Type 0
  pub set : String → String → ℕ → State → State
  pub get : String → State → Option String
  pub ttl : String → State → ℤ
  pub exists : String → State → ℕ
  pub delete : String → State → State
  pub sadd : String → String → State → State
  pub srem : String → String → State → State
  pub smembers : String → State → List String
  pub elapse : ℕ → State → State

-- What a string key holds: nothing, a value with the seconds that are left to it, or a value
-- without an expiry.
pub data Slot : Type 0 where
  absent : Slot
  expiring : String → ℕ → Slot
  persistent : String → Slot

abbrev pub value_of : Slot → Option String
value_of absent = none
value_of (expiring v n) = some v
value_of (persistent v) = some v

-- -2 for no key, -1 for no expiry
abbrev pub ttl_of : Slot → ℤ
ttl_of absent = negsuc 1
ttl_of (expiring v n) = pos n
ttl_of (persistent v) = negsuc 0

abbrev pub count_of : Slot → ℕ
count_of absent = 0
count_of _ = 1

abbrev pub after : ℕ → Slot → Slot
after n (expiring v left) = if ltb n left then expiring v (left - n) else absent
after n sl = sl

-- The documented behaviour of the commands. SMEMBERS has no order: a set is known by its members.
pub record RedisLaws (r : Redis) : Type 0 where
  pub slot : String → r.State → Slot
  pub get-slot : (k : String) (s : r.State) → r.get k s ≡ value_of (slot k s)
  pub ttl-slot : (k : String) (s : r.State) → r.ttl k s ≡ ttl_of (slot k s)
  pub exists-slot : (k : String) (s : r.State) → r.exists k s ≡ count_of (slot k s)
  pub slot-set :
      (j k v : String) (n : ℕ) (s : r.State)
      → 0 < n
      → slot j (r.set k v n s) ≡ (if k == j then expiring v n else slot j s)
  pub slot-delete :
      (j k : String) (s : r.State) → slot j (r.delete k s) ≡ (if k == j then absent else slot j s)
  pub slot-sadd :
      (j k m : String) (s : r.State) → (k == j) ≡ false → slot j (r.sadd k m s) ≡ slot j s
  pub slot-srem :
      (j k m : String) (s : r.State) → (k == j) ≡ false → slot j (r.srem k m s) ≡ slot j s
  pub slot-elapse : (j : String) (n : ℕ) (s : r.State) → slot j (r.elapse n s) ≡ after n (slot j s)
  pub members-elapse :
      (j : String) (n : ℕ) (s : r.State) → r.smembers j (r.elapse n s) ≡ r.smembers j s
  pub members-set :
      (j k v : String) (n : ℕ) (s : r.State)
      → (k == j) ≡ false
      → r.smembers j (r.set k v n s) ≡ r.smembers j s
  pub members-delete :
      (j k : String) (s : r.State) → (k == j) ≡ false → r.smembers j (r.delete k s) ≡ r.smembers j s
  pub members-distinct : (k : String) (s : r.State) → Distinct (r.smembers k s)
  pub member-sadd :
      (x j k m : String) (s : r.State)
      → elem x (r.smembers j (r.sadd k m s))
        ≡ (if k == j then (m == x) || elem x (r.smembers j s) else elem x (r.smembers j s))
  pub member-srem :
      (x j k m : String) (s : r.State)
      → elem x (r.smembers j (r.srem k m s))
        ≡ (if k == j then not (m == x) && elem x (r.smembers j s) else elem x (r.smembers j s))
