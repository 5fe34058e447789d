-- ===== src/TokenCache/Members.antt =====
-- The session sets of all users after each method, and the mark after a registration.
use events_api.Common.{
  ℕ, ◌+◌, String, ◌≡◌, ap, ◌∙◌, not, ◌&&◌, ◌||◌, List, [], ◌∷◌, arith, ltb, elem, ◌==◌,
  if◌then◌else◌,
}
use events_api.Common.Int.{ℤ, eq_ℤ, eq_ℤ→eq}
use events_api.External.Redis.{Redis, RedisLaws}
use events_api.External.Json.{Json, JsonModule}
use events_api.TokenCache.{
  Expiry, ttl_from_exp, key_user_sessions, key_refresh, key_revoked, register_refresh, revoke,
  revoke_refresh, revoke_each, revoke_all_user_refresh, delete_refresh,
}
use events_api.TokenCache.Keys.{
  sessions-eq-sessions, sessions-ne-revoked, refresh-ne-sessions, revoked-ne-sessions,
  refresh-ne-revoked,
}
use events_api.TokenCache.Slots.{sessions, revoked_slot, members-revoke_refresh}
use events_api.TokenCache.Sessions.{round, revoke_all-eq-revoke_each}

module _ (r : Redis) (L : RedisLaws r) (prefix : String) where
  pub members-delete_refresh :
      (i : String) (u : ℤ) (s : r.State)
      → sessions r L prefix u (delete_refresh r prefix i s) ≡ sessions r L prefix u s
  unfolding delete_refresh
  members-delete_refresh i u s =
      L.members-delete (key_user_sessions prefix u) (key_refresh prefix i) s
        (refresh-ne-sessions prefix i u)

  pub members-revoke :
      (now : ℕ) (i : String) (exp : Expiry) (u : ℤ) (s : r.State)
      → sessions r L prefix u (revoke r prefix now i exp s) ≡ sessions r L prefix u s
  unfolding revoke
  members-revoke now i exp u s = ground (
    arith,
    L.members-set (key_user_sessions prefix u) (key_revoked prefix i) "1" (ttl_from_exp now exp) s
        (revoked-ne-sessions prefix i u),
  )

  module _ (json : JsonModule) (now : ℕ) (u : ℤ) (i : String) (p : Json) (exp : Expiry)
      (s : r.State) where
    pub mark-register_refresh :
        (j : String)
        → revoked_slot r L prefix j (register_refresh r json prefix now u i p exp s)
          ≡ revoked_slot r L prefix j s
    unfolding register_refresh
    mark-register_refresh j = ground (
      arith,
      refresh-ne-revoked prefix i j,
      L.slot-sadd (key_revoked prefix j) (key_user_sessions prefix u) i
          (r.set (key_refresh prefix i) (json.dumps p) (ttl_from_exp now exp) s)
          (sessions-ne-revoked prefix u j),
      L.slot-set (key_revoked prefix j) (key_refresh prefix i) (json.dumps p) (ttl_from_exp now exp)
          s,
    )

    pub member-register_any :
        (v : ℤ) (x : String)
        → elem x (sessions r L prefix v (register_refresh r json prefix now u i p exp s)) ≡ (
            (eq_ℤ u v && (ltb 0 (ttl_from_exp now exp) && (i == x)))
            || elem x (sessions r L prefix v s))
    unfolding register_refresh
    member-register_any v x = ground (
      arith,
      sessions-eq-sessions prefix u v,
      L.member-sadd x (key_user_sessions prefix v) (key_user_sessions prefix u) i
          (r.set (key_refresh prefix i) (json.dumps p) (ttl_from_exp now exp) s),
      L.members-set (key_user_sessions prefix v) (key_refresh prefix i) (json.dumps p)
          (ttl_from_exp now exp) s (refresh-ne-sessions prefix i v),
    )

  member-round_any :
      (u v : ℤ) (x i : String) (s : r.State)
      → elem x (sessions r L prefix v (round r L prefix u i s))
        ≡ (not (eq_ℤ u v && (i == x)) && elem x (sessions r L prefix v s))
  member-round_any u v x i s = ground (
    arith,
    sessions-eq-sessions prefix u v,
    L.member-srem x (key_user_sessions prefix v) (key_user_sessions prefix u) i
        (revoke_refresh r prefix i s).1,
    ap (elem x) (members-revoke_refresh r L prefix i v s),
  )

  member-revoke_each_any :
      (u v : ℤ) (is : List String) (n : ℕ) (s : r.State) (x : String)
      → elem x (sessions r L prefix v (revoke_each r prefix (key_user_sessions prefix u) is n s).1)
        ≡ (not (eq_ℤ u v && elem x is) && elem x (sessions r L prefix v s))
  unfolding revoke_each
  member-revoke_each_any u v [] n s x = ground arith
  member-revoke_each_any u v (i ∷ is) n s x =
      rw
        (member-revoke_each_any u v is (if (revoke_refresh r prefix i s).0 then n + 1 else n)
          (round r L prefix u i s) x)
        (ground (arith, member-round_any u v x i s))

  -- A user's set is empty afterwards, and the other users' sets are as before.
  pub member-revoke_all :
      (u v : ℤ) (x : String) (s : r.State)
      → elem x (sessions r L prefix v (revoke_all_user_refresh r prefix u s).1)
        ≡ (not (eq_ℤ u v) && elem x (sessions r L prefix v s))
  member-revoke_all u v x s =
      ap (λ (p : ℕ × r.State). elem x (sessions r L prefix v p.1))
        (revoke_all-eq-revoke_each r L prefix u s)
      ∙ (member-revoke_each_any u v (sessions r L prefix u s) 0 s x ∙ own)
    where
      own :
          (not (eq_ℤ u v && elem x (sessions r L prefix u s)) && elem x (sessions r L prefix v s))
          ≡ (not (eq_ℤ u v) && elem x (sessions r L prefix v s))
      own = ground (arith, λ (e : u ≡ v). ap (λ w. elem x (sessions r L prefix w s)) e, eq_ℤ→eq u v)
