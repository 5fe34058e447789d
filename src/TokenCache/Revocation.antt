-- ===== src/TokenCache/Revocation.antt =====
-- What a client of the cache sees of a refresh token: its payload, and whether it is revoked.
use events_api.Common.{
  ℕ, ◌<◌, String, ◌≡◌, refl, Bool, true, false, none, some, arith, eq_iff, eq_refl, ltb, lt→ltb,
  Bool-cases, inl, inr, eqb, ◌==◌, not, if◌then◌else◌,
}
use events_api.Common.Result.{ok}
use events_api.Common.Int.{ℤ}
use events_api.External.Redis.{Redis, RedisLaws, Slot, absent, expiring, count_of, value_of, after}
use events_api.External.Json.{JsonModule, JsonLaws, sub_payload}
use events_api.TokenCache.{
  Expiry, ttl_from_exp, key_refresh, key_revoked, load_payload, get_refresh, is_revoked,
  revoke_refresh, revoke, store_refresh,
}
use events_api.TokenCache.Slots.{
  ttl_left, refresh_slot, revoked_slot, revoke_refresh_lem, refresh_slot-revoke_refresh,
  revoked_slot-revoke_refresh, refresh_slot-store_refresh, refresh_slot-revoke, revoked_slot-revoke,
}

abbrev pub is_absent : Slot → Bool
is_absent absent = true
is_absent _ = false

module _ (r : Redis) (L : RedisLaws r) (prefix : String) where
  pub is_revoked-slot :
      (j : String) (s : r.State)
      → is_revoked r prefix j s ≡ not (is_absent (revoked_slot r L prefix j s))
  unfolding is_revoked
  is_revoked-slot j s = rw L.exists-slot (of_count (revoked_slot r L prefix j s))
    where
      of_count : (sl : Slot) → not (eqb (count_of sl) 0) ≡ not (is_absent sl)
      of_count absent = refl
      of_count _ = refl

  pub get_refresh-slot :
      (json : JsonModule) (j : String) (s : r.State)
      → get_refresh r json prefix j s ≡ load_payload json (value_of (refresh_slot r L prefix j s))
  unfolding get_refresh
  get_refresh-slot json j s = rw L.get-slot

  pub get_refresh-absent :
      (json : JsonModule) (j : String) (s : r.State)
      → refresh_slot r L prefix j s ≡ absent
      → get_refresh r json prefix j s ≡ ok none
  unfolding load_payload
  get_refresh-absent json j s e = rw (get_refresh-slot json j s, e)

  pub get_refresh_cong :
      (json : JsonModule) (j : String) (s t : r.State)
      → refresh_slot r L prefix j s ≡ refresh_slot r L prefix j t
      → get_refresh r json prefix j s ≡ get_refresh r json prefix j t
  get_refresh_cong json j s t e = rw (get_refresh-slot json j s, get_refresh-slot json j t, e)

  pub is_revoked_cong :
      (j : String) (s t : r.State)
      → revoked_slot r L prefix j s ≡ revoked_slot r L prefix j t
      → is_revoked r prefix j s ≡ is_revoked r prefix j t
  is_revoked_cong j s t e = rw (is_revoked-slot j s, is_revoked-slot j t, e)

  pub load-dumps :
      (json : JsonModule) (laws : JsonLaws json) (n : ℤ)
      → load_payload json (some (json.dumps (sub_payload n))) ≡ ok (some (sub_payload n))
  unfolding load_payload
  load-dumps json laws n = ground (
    arith,
    laws.loads-dumps n,
    laws.dumps-ne-empty (sub_payload n),
    eq_iff (json.dumps (sub_payload n)) "",
  )

  pub expired-or-there :
      (json : JsonModule) (laws : JsonLaws json) (user_id : ℤ) (d ttl : ℕ)
      → load_payload json (value_of (after d (expiring (json.dumps (sub_payload user_id)) ttl)))
        ≡ (if ltb d ttl then ok (some (sub_payload user_id)) else ok none)
  unfolding load_payload
  expired-or-there json laws user_id d ttl = elim (Bool-cases (ltb d ttl)) [
    | inl e ↦ rw e (load-dumps json laws user_id)
    | inr e ↦ rw e
  ]

  -- A token whose key holds a user's payload is found with it.
  pub get_refresh-stored :
      (json : JsonModule) (laws : JsonLaws json) (user_id : ℤ) (ttl : ℕ) (j : String) (s : r.State)
      → refresh_slot r L prefix j s ≡ expiring (json.dumps (sub_payload user_id)) ttl
      → get_refresh r json prefix j s ≡ ok (some (sub_payload user_id))
  get_refresh-stored json laws user_id ttl j s e =
      rw (get_refresh-slot json j s, e) (load-dumps json laws user_id)

  -- A refresh token that is stored at `now` with `ttl_from_exp now exp` seconds to live, one at
  -- least, is found with its payload for exactly so many seconds on the server, and not after.
  pub get-store_refresh :
      (json : JsonModule) (laws : JsonLaws json) (now d : ℕ) (user_id : ℤ) (jti : String)
      (exp : Expiry) (s : r.State)
      → 0 < ttl_from_exp now exp
      → get_refresh r json prefix jti
          (r.elapse d (store_refresh r json prefix now jti (sub_payload user_id) exp s))
        ≡ (if ltb d (ttl_from_exp now exp) then ok (some (sub_payload user_id)) else ok none)
  get-store_refresh json laws now d user_id jti exp s h =
      rw
        (
          get_refresh-slot json jti _,
          L.slot-elapse,
          refresh_slot-store_refresh r L prefix json now jti jti (sub_payload user_id) exp s,
          eq_refl jti,
          lt→ltb _ _ h,
        )
        (expired-or-there json laws user_id d (ttl_from_exp now exp))

  -- A token that `revoke` marks with a second or more to its expiry counts as revoked for exactly
  -- the whole seconds to the expiry, whatever was marked before, and its payload is left alone.
  pub is_revoked-revoke :
      (json : JsonModule) (now d : ℕ) (jti : String) (exp : Expiry) (s : r.State)
      → 0 < ttl_from_exp now exp
      → (is_revoked r prefix jti (r.elapse d (revoke r prefix now jti exp s))
          ≡ ltb d (ttl_from_exp now exp))
        × (get_refresh r json prefix jti (revoke r prefix now jti exp s)
            ≡ get_refresh r json prefix jti s)
  is_revoked-revoke json now d jti exp s h = (
    rw
        (
          is_revoked-slot jti _,
          L.slot-elapse,
          revoked_slot-revoke r L prefix now jti jti exp s,
          eq_refl jti,
          lt→ltb _ _ h,
        )
        (ground arith),
    get_refresh_cong json jti _ s (refresh_slot-revoke r L prefix now jti jti exp s),
  )

  -- `revoke_refresh` on a token with seconds left returns True, removes its payload, and marks it
  -- for the seconds that were left; the payload and the mark of every other token stay as they
  -- were.
  pub revoke_refresh-closes :
      (json : JsonModule) (jti : String) (s : r.State)
      → 0 < ttl_left (L.slot (key_refresh prefix jti) s)
      → ((revoke_refresh r prefix jti s).0 ≡ true)
        × (get_refresh r json prefix jti (revoke_refresh r prefix jti s).1 ≡ ok none)
        × (L.slot (key_revoked prefix jti) (revoke_refresh r prefix jti s).1
            ≡ expiring "1" (ttl_left (L.slot (key_refresh prefix jti) s)))
        × ((other : String)
            → (jti == other) ≡ false
            → (get_refresh r json prefix other (revoke_refresh r prefix jti s).1
                ≡ get_refresh r json prefix other s)
              × (is_revoked r prefix other (revoke_refresh r prefix jti s).1
                  ≡ is_revoked r prefix other s))
  revoke_refresh-closes json jti s live = (
    rw (revoke_refresh_lem r L prefix jti s, lt→ltb _ _ live),
    get_refresh-absent json jti _
        (rw (refresh_slot-revoke_refresh r L prefix jti jti s, eq_refl jti, lt→ltb _ _ live)),
    rw (revoked_slot-revoke_refresh r L prefix jti jti s, eq_refl jti, lt→ltb _ _ live),
    λ other ne. (
      get_refresh_cong json other _ s (rw (refresh_slot-revoke_refresh r L prefix jti other s, ne)),
      is_revoked_cong other _ s (rw (revoked_slot-revoke_refresh r L prefix jti other s, ne)),
    ),
  )

  -- On a token that is absent, has expired or has no expiry, `revoke_refresh` returns False and
  -- changes nothing.
  pub revoke_refresh_dead :
      (jti : String) (s : r.State)
      → ttl_left (L.slot (key_refresh prefix jti) s) ≡ 0
      → revoke_refresh r prefix jti s ≡ (false, s)
  revoke_refresh_dead jti s dead = rw (revoke_refresh_lem r L prefix jti s, dead)
