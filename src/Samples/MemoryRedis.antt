-- ===== src/Samples/MemoryRedis.antt =====
-- A Redis server as two functions from keys: to slots and to the members of sets.
use events_api.Common.{
  String, ◌≡◌, refl, not, ◌&&◌, ◌||◌, List, [], ◌∷◌, arith, eq_iff, elem, Distinct, ◌==◌,
  if◌then◌else◌, Bool-cases, inl, inr,
}
use events_api.External.Redis.{
  Redis, RedisLaws, Slot, absent, expiring, value_of, ttl_of, count_of, after,
}

pub record Store : Type 0 where
  pub slots : String → Slot
  pub sets : String → List String

unfoldable pub dedupe : List String → List String
dedupe [] = []
dedupe (x ∷ xs) = let rest = dedupe xs in if elem x xs then rest else x ∷ rest

unfoldable pub without : String → List String → List String
without x [] = []
without x (y ∷ ys) = let rest = without x ys in if x == y then rest else y ∷ rest

abbrev pub memory_redis : Redis
memory_redis = record {
  State = Store;
  set = λ k v n s. record s { slots = λ j. if k == j then expiring v n else s.slots j };
  get = λ k s. value_of (s.slots k);
  ttl = λ k s. ttl_of (s.slots k);
  exists = λ k s. count_of (s.slots k);
  delete = λ k s. record s { slots = λ j. if k == j then absent else s.slots j };
  sadd = λ k m s. record s { sets = λ j. if k == j then m ∷ s.sets j else s.sets j };
  srem = λ k m s. record s { sets = λ j. if k == j then without m (s.sets j) else s.sets j };
  smembers = λ k s. dedupe (s.sets k);
  elapse = λ n s. record s { slots = λ j. after n (s.slots j) };
}

elem-dedupe : (x : String) (xs : List String) → elem x (dedupe xs) ≡ elem x xs
unfolding dedupe
elem-dedupe x [] = refl
elem-dedupe x (y ∷ ys) = ground (arith, elem-dedupe x ys, eq_iff y x)

pub dedupe-Distinct : (xs : List String) → Distinct (dedupe xs)
unfolding dedupe
dedupe-Distinct [] = tt
dedupe-Distinct (x ∷ xs) = elim (Bool-cases (elem x xs)) [
  | inl old ↦ rw old (dedupe-Distinct xs)
  | inr new ↦ rw new (rw (elem-dedupe x xs) new, dedupe-Distinct xs)
]

elem-without :
    (x m : String) (xs : List String) → elem x (without m xs) ≡ (not (m == x) && elem x xs)
unfolding without
elem-without x m [] = ground arith
elem-without x m (y ∷ ys) = ground (arith, elem-without x m ys, eq_iff m y, eq_iff y x, eq_iff m x)

pub member-sadd :
    (x j k m : String) (s : Store)
    → elem x (dedupe (if k == j then m ∷ s.sets j else s.sets j))
      ≡ (if k == j then (m == x) || elem x (dedupe (s.sets j)) else elem x (dedupe (s.sets j)))
member-sadd x j k m s =
    rw (elem-dedupe x (if k == j then m ∷ s.sets j else s.sets j), elem-dedupe x (s.sets j))
      (ground arith)

pub member-srem :
    (x j k m : String) (s : Store)
    → elem x (dedupe (if k == j then without m (s.sets j) else s.sets j))
      ≡ (if k == j then not (m == x) && elem x (dedupe (s.sets j)) else elem x (dedupe (s.sets j)))
member-srem x j k m s =
    rw (elem-dedupe x (if k == j then without m (s.sets j) else s.sets j), elem-dedupe x (s.sets j))
      (ground (arith, elem-without x m (s.sets j)))

abbrev pub memory_redis_laws : RedisLaws memory_redis
memory_redis_laws = record {
  slot = λ k s. s.slots k;
  get-slot = λ k s. refl;
  ttl-slot = λ k s. refl;
  exists-slot = λ k s. refl;
  slot-set = λ j k v n s pos. refl;
  slot-delete = λ j k s. refl;
  slot-sadd = λ j k m s ne. refl;
  slot-srem = λ j k m s ne. refl;
  slot-elapse = λ j n s. refl;
  members-elapse = λ j n s. refl;
  members-set = λ j k v n s ne. refl;
  members-delete = λ j k s ne. refl;
  members-distinct = λ k s. dedupe-Distinct (s.sets k);
  member-sadd = member-sadd;
  member-srem = member-srem;
}
