-- ===== src/TokenCache/Slots.antt =====
-- What each method of the cache does to the keys of a token, as equations between slots.
use events_api.Common.{
  ℕ, ◌<◌, String, ◌≡◌, Bool, true, false, ◌&&◌, ◌||◌, List, arith, eq_refl, ltb, elem, ◌==◌,
  if◌then◌else◌,
}
use events_api.Common.Int.{ℤ, to_nat}
use events_api.External.Redis.{Redis, RedisLaws, Slot, absent, expiring, ttl_of}
use events_api.External.Json.{Json, JsonModule}
use events_api.TokenCache.{
  Expiry, ttl_from_exp, key_user_sessions, key_access, key_refresh, key_revoked, register_refresh,
  store_access, store_refresh, revoke, revoke_refresh, delete_refresh,
}
use events_api.TokenCache.Keys.{
  key_laws, refresh-ne-sessions, revoked-ne-sessions, access-ne-sessions, sessions-ne-refresh,
  refresh-ne-revoked, revoked-ne-refresh, access-ne-refresh, access-ne-revoked, refresh-eq-refresh,
  revoked-eq-revoked, access-eq-access,
}

-- The seconds that are left to a key, 0 where it does not expire or does not exist.
abbrev pub ttl_left : Slot → ℕ
ttl_left sl = to_nat (ttl_of sl)

module _ (r : Redis) (L : RedisLaws r) (prefix : String) where
  abbrev pub refresh_slot : String → r.State → Slot
  refresh_slot jti s = L.slot (key_refresh prefix jti) s

  abbrev pub revoked_slot : String → r.State → Slot
  revoked_slot jti s = L.slot (key_revoked prefix jti) s

  abbrev pub access_slot : String → r.State → Slot
  access_slot jti s = L.slot (key_access prefix jti) s

  abbrev pub is_live : String → r.State → Bool
  is_live jti s = ltb 0 (ttl_left (refresh_slot jti s))

  -- the two writes of `revoke_refresh`, for a token with `n` seconds left
  abbrev revoked_state : String → ℕ → r.State → r.State
  revoked_state i n s = r.delete (key_refresh prefix i) (r.set (key_revoked prefix i) "1" n s)

  -- The method reports whether the token was live, and does nothing to one that was not.
  pub revoke_refresh_lem :
      (i : String) (s : r.State)
      → revoke_refresh r prefix i s ≡ (
          if is_live i s
          then (true, revoked_state i (ttl_left (refresh_slot i s)) s)
          else (false, s))
  unfolding revoke_refresh
  revoke_refresh_lem i s = rw L.ttl-slot (ground arith)

  module _ (i j : String) (s : r.State) where
    refresh_slot-revoked_state :
        (n : ℕ)
        → 0 < n
        → refresh_slot j (revoked_state i n s) ≡ (if i == j then absent else refresh_slot j s)
    refresh_slot-revoked_state n h = simp (
      L.slot-delete,
      key_laws,
      L.slot-set (key_refresh prefix j) (key_revoked prefix i) "1" n s h,
    )

    revoked_slot-revoked_state :
        (n : ℕ)
        → 0 < n
        → revoked_slot j (revoked_state i n s)
          ≡ (if i == j then expiring "1" n else revoked_slot j s)
    revoked_slot-revoked_state n h = simp (
      L.slot-delete,
      key_laws,
      L.slot-set (key_revoked prefix j) (key_revoked prefix i) "1" n s h,
    )

    pub refresh_slot-revoke_refresh :
        refresh_slot j (revoke_refresh r prefix i s).1
        ≡ (if (i == j) && is_live i s then absent else refresh_slot j s)
    refresh_slot-revoke_refresh =
        rw revoke_refresh_lem
          (ground (arith, refresh_slot-revoked_state (ttl_left (refresh_slot i s))))

    pub revoked_slot-revoke_refresh : revoked_slot j (revoke_refresh r prefix i s).1 ≡ (
        if (i == j) && is_live i s
        then expiring "1" (ttl_left (refresh_slot i s))
        else revoked_slot j s)
    revoked_slot-revoke_refresh =
        rw revoke_refresh_lem
          (ground (arith, revoked_slot-revoked_state (ttl_left (refresh_slot i s))))

  module _ (user_id : ℤ) (s : r.State) where
    abbrev pub sessions : List String
    sessions = r.smembers (key_user_sessions prefix user_id) s

  members-revoked_state :
      (i : String) (user_id : ℤ) (n : ℕ) (s : r.State)
      → sessions user_id (revoked_state i n s) ≡ sessions user_id s
  members-revoked_state i user_id n s = simp (
    L.members-delete (key_user_sessions prefix user_id) (key_refresh prefix i)
        (r.set (key_revoked prefix i) "1" n s) (refresh-ne-sessions prefix i user_id),
    L.members-set (key_user_sessions prefix user_id) (key_revoked prefix i) "1" n s
        (revoked-ne-sessions prefix i user_id),
  )

  pub members-revoke_refresh :
      (i : String) (user_id : ℤ) (s : r.State)
      → sessions user_id (revoke_refresh r prefix i s).1 ≡ sessions user_id s
  members-revoke_refresh i user_id s =
      rw revoke_refresh_lem
        (ground (arith, members-revoked_state i user_id (ttl_left (refresh_slot i s)) s))

  -- `revoke` marks its token, if the expiry lies ahead, and touches no other key.
  module _ (now : ℕ) (i j : String) (exp : Expiry) (s : r.State) where
    pub revoked_slot-revoke : revoked_slot j (revoke r prefix now i exp s) ≡ (
        if (i == j) && ltb 0 (ttl_from_exp now exp)
        then expiring "1" (ttl_from_exp now exp)
        else revoked_slot j s)
    unfolding revoke
    revoked_slot-revoke = ground (
      arith,
      revoked-eq-revoked prefix i j,
      L.slot-set (key_revoked prefix j) (key_revoked prefix i) "1" (ttl_from_exp now exp) s,
    )

    pub refresh_slot-revoke : refresh_slot j (revoke r prefix now i exp s) ≡ refresh_slot j s
    unfolding revoke
    refresh_slot-revoke = ground (
      arith,
      revoked-ne-refresh prefix i j,
      L.slot-set (key_refresh prefix j) (key_revoked prefix i) "1" (ttl_from_exp now exp) s,
    )

  -- `delete_refresh` removes the payload of its token alone.
  module _ (i j : String) (s : r.State) where
    pub refresh_slot-delete_refresh :
        refresh_slot j (delete_refresh r prefix i s) ≡ (if i == j then absent else refresh_slot j s)
    unfolding delete_refresh
    refresh_slot-delete_refresh = simp (L.slot-delete, key_laws)

    pub revoked_slot-delete_refresh :
        revoked_slot j (delete_refresh r prefix i s) ≡ revoked_slot j s
    unfolding delete_refresh
    revoked_slot-delete_refresh = simp (L.slot-delete, key_laws)

  -- `store_refresh` writes the key of its token alone.
  module _ (json : JsonModule) (now : ℕ) (i j : String) (p : Json) (exp : Expiry)
      (s : r.State) where
    pub refresh_slot-store_refresh : refresh_slot j (store_refresh r json prefix now i p exp s) ≡ (
        if (i == j) && ltb 0 (ttl_from_exp now exp)
        then expiring (json.dumps p) (ttl_from_exp now exp)
        else refresh_slot j s)
    unfolding store_refresh
    refresh_slot-store_refresh = ground (
      arith,
      refresh-eq-refresh prefix i j,
      L.slot-set (key_refresh prefix j) (key_refresh prefix i) (json.dumps p) (ttl_from_exp now exp)
          s,
    )

    pub revoked_slot-store_refresh :
        revoked_slot j (store_refresh r json prefix now i p exp s) ≡ revoked_slot j s
    unfolding store_refresh
    revoked_slot-store_refresh = ground (
      arith,
      refresh-ne-revoked prefix i j,
      L.slot-set (key_revoked prefix j) (key_refresh prefix i) (json.dumps p) (ttl_from_exp now exp)
          s,
    )

    pub refresh_slot-store_access :
        refresh_slot j (store_access r json prefix now i p exp s) ≡ refresh_slot j s
    unfolding store_access
    refresh_slot-store_access = ground (
      arith,
      access-ne-refresh prefix i j,
      L.slot-set (key_refresh prefix j) (key_access prefix i) (json.dumps p) (ttl_from_exp now exp)
          s,
    )

    pub revoked_slot-store_access :
        revoked_slot j (store_access r json prefix now i p exp s) ≡ revoked_slot j s
    unfolding store_access
    revoked_slot-store_access = ground (
      arith,
      access-ne-revoked prefix i j,
      L.slot-set (key_revoked prefix j) (key_access prefix i) (json.dumps p) (ttl_from_exp now exp)
          s,
    )

    pub access_slot-store_access : access_slot j (store_access r json prefix now i p exp s) ≡ (
        if (i == j) && ltb 0 (ttl_from_exp now exp)
        then expiring (json.dumps p) (ttl_from_exp now exp)
        else access_slot j s)
    unfolding store_access
    access_slot-store_access = ground (
      arith,
      access-eq-access prefix i j,
      L.slot-set (key_access prefix j) (key_access prefix i) (json.dumps p) (ttl_from_exp now exp)
          s,
    )

  module _ (json : JsonModule) (now : ℕ) (i : String) (p : Json) (exp : Expiry) (user_id : ℤ)
      (s : r.State) where
    pub members-store_refresh :
        sessions user_id (store_refresh r json prefix now i p exp s) ≡ sessions user_id s
    unfolding store_refresh
    members-store_refresh = ground (
      arith,
      L.members-set (key_user_sessions prefix user_id) (key_refresh prefix i) (json.dumps p)
          (ttl_from_exp now exp) s (refresh-ne-sessions prefix i user_id),
    )

    pub members-store_access :
        sessions user_id (store_access r json prefix now i p exp s) ≡ sessions user_id s
    unfolding store_access
    members-store_access = ground (
      arith,
      L.members-set (key_user_sessions prefix user_id) (key_access prefix i) (json.dumps p)
          (ttl_from_exp now exp) s (access-ne-sessions prefix i user_id),
    )

  -- `register_refresh` is `store_refresh` and an entry in the user's set.
  module _ (json : JsonModule) (now : ℕ) (u : ℤ) (i : String) (p : Json) (exp : Expiry)
      (s : r.State) where
    pub slot-register_refresh :
        (j : String)
        → refresh_slot j (register_refresh r json prefix now u i p exp s)
          ≡ refresh_slot j (store_refresh r json prefix now i p exp s)
    unfolding register_refresh store_refresh
    slot-register_refresh j = ground (
      arith,
      L.slot-sadd (key_refresh prefix j) (key_user_sessions prefix u) i
          (r.set (key_refresh prefix i) (json.dumps p) (ttl_from_exp now exp) s)
          (sessions-ne-refresh prefix u j),
    )

    pub member-register_refresh :
        (x : String)
        → elem x (sessions u (register_refresh r json prefix now u i p exp s))
          ≡ ((ltb 0 (ttl_from_exp now exp) && (i == x)) || elem x (sessions u s))
    unfolding register_refresh
    member-register_refresh x = ground (
      arith,
      eq_refl (key_user_sessions prefix u),
      L.member-sadd x (key_user_sessions prefix u) (key_user_sessions prefix u) i
          (r.set (key_refresh prefix i) (json.dumps p) (ttl_from_exp now exp) s),
      L.members-set (key_user_sessions prefix u) (key_refresh prefix i) (json.dumps p)
          (ttl_from_exp now exp) s (refresh-ne-sessions prefix i u),
    )
