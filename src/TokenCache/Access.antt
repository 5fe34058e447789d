-- ===== src/TokenCache/Access.antt =====
-- What a client of the cache sees of an access token.
use events_api.Common.{
  ℕ, ◌<◌, String, ◌≡◌, refl, none, some, eq_refl, ltb, lt→ltb, Bool-cases, inl, inr, ◌==◌,
  if◌then◌else◌,
}
use events_api.Common.Result.{ok}
use events_api.Common.Int.{ℤ}
use events_api.External.Redis.{Redis, RedisLaws}
use events_api.External.Json.{JsonModule, JsonLaws, sub_payload}
use events_api.TokenCache.{
  Expiry, ttl_from_exp, key_access, key_refresh, key_revoked, load_payload, get_access, get_refresh,
  is_revoked, store_access, delete_access,
}
use events_api.TokenCache.Keys.{access-eq-access, access-ne-refresh, access-ne-revoked}
use events_api.TokenCache.Slots.{access_slot-store_access}
use events_api.TokenCache.Revocation.{expired-or-there}

module _ (r : Redis) (L : RedisLaws r) (prefix : String) where
  -- An access token that is stored at `now` with `ttl_from_exp now exp` seconds to live, one at
  -- least, is found with its payload for exactly so many seconds on the server, and not after.
  pub get-store_access :
      (json : JsonModule) (laws : JsonLaws json) (now d : ℕ) (user_id : ℤ) (jti : String)
      (exp : Expiry) (s : r.State)
      → 0 < ttl_from_exp now exp
      → get_access r json prefix jti
          (r.elapse d (store_access r json prefix now jti (sub_payload user_id) exp s))
        ≡ (if ltb d (ttl_from_exp now exp) then ok (some (sub_payload user_id)) else ok none)
  unfolding get_access
  get-store_access json laws now d user_id jti exp s h =
      rw
        (
          L.get-slot,
          L.slot-elapse,
          access_slot-store_access r L prefix json now jti jti (sub_payload user_id) exp s,
          eq_refl jti,
          lt→ltb _ _ h,
        )
        (expired-or-there r L prefix json laws user_id d (ttl_from_exp now exp))

  -- An access token that is deleted is not found. The payload of every other access token, and the
  -- payload and the mark of every refresh token, stay as they were.
  pub get_access-delete_access :
      (json : JsonModule) (i j : String) (s : r.State)
      → (get_access r json prefix j (delete_access r prefix i s)
          ≡ (if i == j then ok none else get_access r json prefix j s))
        × (get_refresh r json prefix j (delete_access r prefix i s) ≡ get_refresh r json prefix j s)
        × (is_revoked r prefix j (delete_access r prefix i s) ≡ is_revoked r prefix j s)
  unfolding get_access get_refresh is_revoked delete_access
  get_access-delete_access json i j s = (
    elim (Bool-cases (i == j))
        as (λ o.
          load_payload json (r.get (key_access prefix j) (r.delete (key_access prefix i) s))
          ≡ (if i == j then ok none else load_payload json (r.get (key_access prefix j) s))) [
            | inl same ↦
                rw
                  (
                    L.get-slot (key_access prefix j) (r.delete (key_access prefix i) s),
                    L.slot-delete,
                    access-eq-access prefix i j,
                    same,
                  )
                  (unfold load_payload in refl)
            | inr other ↦
                rw
                  (
                    L.get-slot (key_access prefix j) (r.delete (key_access prefix i) s),
                    L.slot-delete,
                    access-eq-access prefix i j,
                    other,
                    L.get-slot (key_access prefix j) s,
                  )
                  refl
          ],
    rw
        (
          L.get-slot (key_refresh prefix j) (r.delete (key_access prefix i) s),
          L.slot-delete,
          access-ne-refresh prefix i j,
          L.get-slot (key_refresh prefix j) s,
        )
        refl,
    rw
        (
          L.exists-slot (key_revoked prefix j) (r.delete (key_access prefix i) s),
          L.slot-delete,
          access-ne-revoked prefix i j,
          L.exists-slot (key_revoked prefix j) s,
        )
        refl,
  )
