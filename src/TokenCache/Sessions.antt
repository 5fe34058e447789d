-- ===== src/TokenCache/Sessions.antt =====
-- `revoke_all_user_refresh`: the loop over a user's session set.
use native.Mathlib.Nat.{zero-add}
use events_api.Common.{
  ℕ, ◌+◌, ◌<◌, String, ◌≡◌, refl, true, false, ◌&&◌, none, List, [], ◌∷◌, arith, eq_iff, eq_refl,
  elem, ◌==◌, not, if◌then◌else◌, is_empty, elem-none→nil, Distinct, ◌∙◌, ap, lt→ltb,
}
use events_api.External.Redis.{Redis, RedisLaws, absent, expiring}
use events_api.TokenCache.{
  key_user_sessions, key_refresh, key_revoked, revoke_refresh, revoke_each, revoke_all_user_refresh,
}
use events_api.TokenCache.Keys.{sessions-ne-refresh, sessions-ne-revoked}
use events_api.External.Json.{JsonModule}
use events_api.Common.Result.{ok}
use events_api.Common.Int.{ℤ}
use events_api.TokenCache.{get_refresh, is_revoked}
use events_api.TokenCache.Revocation.{get_refresh-absent, get_refresh_cong, is_revoked_cong}
use events_api.TokenCache.Slots.{
  ttl_left, refresh_slot, revoked_slot, is_live, sessions, revoke_refresh_lem,
  refresh_slot-revoke_refresh, revoked_slot-revoke_refresh, members-revoke_refresh,
}

module _ (r : Redis) (L : RedisLaws r) (prefix : String) where
  -- The number of tokens of a list that are live.
  abbrev pub count_live : List String → r.State → ℕ
  count_live [] s = 0
  count_live (i ∷ is) s = (if is_live r L prefix i s then 1 else 0) + count_live is s

  module _ (u : ℤ) where
    -- the state after one round of the loop
    abbrev pub round : String → r.State → r.State
    round i s = r.srem (key_user_sessions prefix u) i (revoke_refresh r prefix i s).1

    refresh_slot-round :
        (i j : String) (s : r.State)
        → refresh_slot r L prefix j (round i s)
          ≡ (if (i == j) && is_live r L prefix i s then absent else refresh_slot r L prefix j s)
    refresh_slot-round i j s =
        rw
          (L.slot-srem (key_refresh prefix j) (key_user_sessions prefix u) i
            (revoke_refresh r prefix i s).1 (sessions-ne-refresh prefix u j))
          (refresh_slot-revoke_refresh r L prefix i j s)

    revoked_slot-round :
        (i j : String) (s : r.State)
        → revoked_slot r L prefix j (round i s) ≡ (
            if (i == j) && is_live r L prefix i s
            then expiring "1" (ttl_left (refresh_slot r L prefix i s))
            else revoked_slot r L prefix j s)
    revoked_slot-round i j s =
        rw
          (L.slot-srem (key_revoked prefix j) (key_user_sessions prefix u) i
            (revoke_refresh r prefix i s).1 (sessions-ne-revoked prefix u j))
          (revoked_slot-revoke_refresh r L prefix i j s)

    member-round :
        (x i : String) (s : r.State)
        → elem x (sessions r L prefix u (round i s))
          ≡ (not (i == x) && elem x (sessions r L prefix u s))
    member-round x i s = rw (
      L.member-srem x (key_user_sessions prefix u) (key_user_sessions prefix u) i
          (revoke_refresh r prefix i s).1,
      eq_refl (key_user_sessions prefix u),
      members-revoke_refresh r L prefix i u s,
    )

    -- After the loop the keys of the list's live tokens are gone, and the other tokens' keys are
    -- as before.
    refresh_slot-revoke_each :
        (is : List String) (n : ℕ) (s : r.State) (j : String)
        → refresh_slot r L prefix j (revoke_each r prefix (key_user_sessions prefix u) is n s).1
          ≡ (if elem j is && is_live r L prefix j s then absent else refresh_slot r L prefix j s)
    unfolding revoke_each
    refresh_slot-revoke_each [] n s j = refl
    refresh_slot-revoke_each (i ∷ is) n s j =
        rw
          (refresh_slot-revoke_each is (if (revoke_refresh r prefix i s).0 then n + 1 else n)
            (round i s) j)
          (ground (arith, eq_iff i j, refresh_slot-round i j s))

    revoked_slot-revoke_each :
        (is : List String) (n : ℕ) (s : r.State) (j : String)
        → revoked_slot r L prefix j (revoke_each r prefix (key_user_sessions prefix u) is n s).1 ≡ (
            if elem j is && is_live r L prefix j s
            then expiring "1" (ttl_left (refresh_slot r L prefix j s))
            else revoked_slot r L prefix j s)
    unfolding revoke_each
    revoked_slot-revoke_each [] n s j = refl
    revoked_slot-revoke_each (i ∷ is) n s j =
        rw
          (revoked_slot-revoke_each is (if (revoke_refresh r prefix i s).0 then n + 1 else n)
            (round i s) j)
          (ground (arith, eq_iff i j, refresh_slot-round i j s, revoked_slot-round i j s))

    member-revoke_each :
        (is : List String) (n : ℕ) (s : r.State) (x : String)
        → elem x
            (sessions r L prefix u (revoke_each r prefix (key_user_sessions prefix u) is n s).1)
          ≡ (not (elem x is) && elem x (sessions r L prefix u s))
    unfolding revoke_each
    member-revoke_each [] n s x = refl
    member-revoke_each (i ∷ is) n s x =
        rw
          (member-revoke_each is (if (revoke_refresh r prefix i s).0 then n + 1 else n) (round i s)
            x)
          (ground (arith, member-round x i s))

    count_live-round :
        (i : String) (is : List String) (s : r.State)
        → elem i is ≡ false
        → count_live is (round i s) ≡ count_live is s
    count_live-round i [] s h = refl
    count_live-round i (k ∷ is) s h =
        ground (arith, eq_iff i k, eq_iff k i, refresh_slot-round i k s, count_live-round i is s)

    count-revoke_each :
        (is : List String) (n : ℕ) (s : r.State)
        → Distinct is
        → (revoke_each r prefix (key_user_sessions prefix u) is n s).0 ≡ n + count_live is s
    unfolding revoke_each
    count-revoke_each [] n s d = omega arith
    count-revoke_each (i ∷ is) n s d =
        rw
          (
            count-revoke_each is (if (revoke_refresh r prefix i s).0 then n + 1 else n) (round i s)
                d.1,
            count_live-round i is s d.0,
          )
          (ground (arith, revoke_refresh_lem r L prefix i s))

  -- The test for an empty set changes nothing: the loop over no members does nothing either.
  pub revoke_all-eq-revoke_each :
      (u : ℤ) (s : r.State)
      → revoke_all_user_refresh r prefix u s
        ≡ revoke_each r prefix (key_user_sessions prefix u) (sessions r L prefix u s) 0 s
  unfolding revoke_all_user_refresh
  revoke_all-eq-revoke_each u s = skip (sessions r L prefix u s)
    where
      skip :
          (is : List String)
          → (if is_empty is
              then (0, s)
              else revoke_each r prefix (key_user_sessions prefix u) is 0 s)
            ≡ revoke_each r prefix (key_user_sessions prefix u) is 0 s
      skip [] = refl
      skip (i ∷ is) = refl

  module _ (json : JsonModule) (u : ℤ) (s : r.State) where
    abbrev pub after_all : r.State
    after_all = (revoke_all_user_refresh r prefix u s).1

    pub refresh_slot-revoke_all :
        (j : String)
        → refresh_slot r L prefix j after_all ≡ (
            if elem j (sessions r L prefix u s) && is_live r L prefix j s
            then absent
            else refresh_slot r L prefix j s)
    refresh_slot-revoke_all j =
        ap (λ (p : ℕ × r.State). refresh_slot r L prefix j p.1) (revoke_all-eq-revoke_each u s)
        ∙ refresh_slot-revoke_each u (sessions r L prefix u s) 0 s j

    pub revoked_slot-revoke_all :
        (j : String)
        → revoked_slot r L prefix j after_all ≡ (
            if elem j (sessions r L prefix u s) && is_live r L prefix j s
            then expiring "1" (ttl_left (refresh_slot r L prefix j s))
            else revoked_slot r L prefix j s)
    revoked_slot-revoke_all j =
        ap (λ (p : ℕ × r.State). revoked_slot r L prefix j p.1) (revoke_all-eq-revoke_each u s)
        ∙ revoked_slot-revoke_each u (sessions r L prefix u s) 0 s j

    -- Every live refresh token of the user's session set loses its payload and is marked as
    -- revoked for the seconds that were left to it.
    pub revoke_all-closes :
        (jti : String)
        → elem jti (r.smembers (key_user_sessions prefix u) s) ≡ true
        → 0 < ttl_left (L.slot (key_refresh prefix jti) s)
        → (get_refresh r json prefix jti (revoke_all_user_refresh r prefix u s).1 ≡ ok none)
          × (L.slot (key_revoked prefix jti) (revoke_all_user_refresh r prefix u s).1
              ≡ expiring "1" (ttl_left (L.slot (key_refresh prefix jti) s)))
    revoke_all-closes jti m live = (
      get_refresh-absent r L prefix json jti after_all
          (rw (refresh_slot-revoke_all jti, m, lt→ltb _ _ live)),
      rw (revoked_slot-revoke_all jti, m, lt→ltb _ _ live),
    )

    -- A token outside the user's session set keeps its payload and its mark.
    pub revoke_all_others :
        (jti : String)
        → elem jti (r.smembers (key_user_sessions prefix u) s) ≡ false
        → (get_refresh r json prefix jti (revoke_all_user_refresh r prefix u s).1
            ≡ get_refresh r json prefix jti s)
          × (is_revoked r prefix jti (revoke_all_user_refresh r prefix u s).1
              ≡ is_revoked r prefix jti s)
    revoke_all_others jti m = (
      get_refresh_cong r L prefix json jti after_all s (rw (refresh_slot-revoke_all jti, m)),
      is_revoked_cong r L prefix jti after_all s (rw (revoked_slot-revoke_all jti, m)),
    )

  -- `revoke_all_user_refresh` returns the number of the set's tokens that were live, and leaves
  -- the set empty.
  pub revoke_all-count :
      (u : ℤ) (s : r.State)
      → ((revoke_all_user_refresh r prefix u s).0
          ≡ count_live (r.smembers (key_user_sessions prefix u) s) s)
        × (r.smembers (key_user_sessions prefix u) (revoke_all_user_refresh r prefix u s).1 ≡ [])
  revoke_all-count u s = rw (revoke_all-eq-revoke_each u s) (
    count-revoke_each u (sessions r L prefix u s) 0 s
          (L.members-distinct (key_user_sessions prefix u) s)
        ∙ zero-add _,
    elem-none→nil _ (λ x. rw (member-revoke_each u (sessions r L prefix u s) 0 s x) (ground arith)),
  )
