-- ===== src/TokenCache/Ledger/Refinement.antt =====
-- The methods of the class on a server keep to the abstract view.
use events_api.Common.{ℕ, String, ◌≡◌, refl, not, Option, none, some, List, [], ◌∷◌, arith, elem}
use events_api.Common.Int.{ℤ}
use events_api.Common.Result.{ok}
use events_api.External.Redis.{Redis, RedisLaws, Slot, absent, expiring, after, value_of}
use events_api.External.Jwt.{is_given}
use events_api.External.Json.{Json, JsonModule, JsonLaws, sub_payload}
use events_api.TokenCache.{Expiry, key_user_sessions, get_refresh, is_revoked, load_payload}
use events_api.TokenCache.Slots.{
  ttl_left, refresh_slot, revoked_slot, sessions, refresh_slot-revoke_refresh,
  revoked_slot-revoke_refresh, members-revoke_refresh, refresh_slot-store_refresh,
  revoked_slot-store_refresh, members-store_refresh, refresh_slot-revoke, revoked_slot-revoke,
  refresh_slot-delete_refresh, revoked_slot-delete_refresh, slot-register_refresh,
}
use events_api.TokenCache.Sessions.{refresh_slot-revoke_all, revoked_slot-revoke_all}
use events_api.TokenCache.Revocation.{is_absent, is_revoked-slot, get_refresh-slot, load-dumps}
use events_api.TokenCache.Members.{
  members-delete_refresh, members-revoke, mark-register_refresh, member-register_any,
  member-revoke_all,
}
use events_api.TokenCache.Ledger.{
  Ledger, nothing_known, Call, registers, stores, revokes, revokes_refresh, deletes, revokes_all,
  elapses, seconds, later, refused_later, apply, apply_all, perform, perform_all,
}

module _ (r : Redis) (L : RedisLaws r) (json : JsonModule) (prefix : String) where
  -- what the server holds for an open token and for a refused one
  abbrev token_slot : Option (ℤ × ℕ) → Slot
  token_slot none = absent
  token_slot (some (u, n)) = expiring (json.dumps (sub_payload u)) n

  abbrev mark_slot : Option ℕ → Slot
  mark_slot none = absent
  mark_slot (some n) = expiring "1" n

  -- The server holds what the abstract view says, and nothing more of refresh tokens.
  pub record Refines (a : Ledger) (s : r.State) : Type 0 where
    pub payloads : (j : String) → refresh_slot r L prefix j s ≡ token_slot (a.open_tokens j)
    pub marks : (j : String) → revoked_slot r L prefix j s ≡ mark_slot (a.refused j)
    pub sets : (u : ℤ) (j : String) → elem j (sessions r L prefix u s) ≡ a.registered u j

  ttl_left-token_slot : (t : Option (ℤ × ℕ)) → ttl_left (token_slot t) ≡ seconds t
  ttl_left-token_slot none = refl
  ttl_left-token_slot (some (u, n)) = refl

  after-token_slot : (n : ℕ) (t : Option (ℤ × ℕ)) → after n (token_slot t) ≡ token_slot (later n t)
  after-token_slot n none = refl
  after-token_slot n (some (u, left)) = ground arith

  after-mark_slot : (n : ℕ) (t : Option ℕ) → after n (mark_slot t) ≡ mark_slot (refused_later n t)
  after-mark_slot n none = refl
  after-mark_slot n (some left) = ground arith

  module _ (a : Ledger) (s : r.State) (h : Refines a s) where
    elapses-Refines : (n : ℕ) → Refines (apply (elapses n) a) (perform r json prefix (elapses n) s)
    unfolding apply perform
    elapses-Refines n = record {
      payloads = λ j. rw (L.slot-elapse, h.payloads j) (after-token_slot n (a.open_tokens j));
      marks = λ j. rw (L.slot-elapse, h.marks j) (after-mark_slot n (a.refused j));
      sets = λ u j. rw L.members-elapse (h.sets u j);
    }

    deletes-Refines :
        (i : String) → Refines (apply (deletes i) a) (perform r json prefix (deletes i) s)
    unfolding apply perform
    deletes-Refines i = record {
      payloads = λ j. ground (arith, refresh_slot-delete_refresh r L prefix i j s, h.payloads j);
      marks = λ j. ground (arith, revoked_slot-delete_refresh r L prefix i j s, h.marks j);
      sets = λ u j. rw (members-delete_refresh r L prefix i u s) (h.sets u j);
    }

    stores-Refines :
        (now : ℕ) (u : ℤ) (i : String) (exp : Expiry)
        → Refines (apply (stores now u i exp) a) (perform r json prefix (stores now u i exp) s)
    unfolding apply perform
    stores-Refines now u i exp = record {
      payloads = λ j. ground (
        arith,
        refresh_slot-store_refresh r L prefix json now i j (sub_payload u) exp s,
        h.payloads j,
      );
      marks = λ j. ground (
        arith,
        revoked_slot-store_refresh r L prefix json now i j (sub_payload u) exp s,
        h.marks j,
      );
      sets = λ v j.
          rw (members-store_refresh r L prefix json now i (sub_payload u) exp v s) (h.sets v j);
    }

    revokes-Refines :
        (now : ℕ) (i : String) (exp : Expiry)
        → Refines (apply (revokes now i exp) a) (perform r json prefix (revokes now i exp) s)
    unfolding apply perform
    revokes-Refines now i exp = record {
      payloads = λ j. ground (arith, refresh_slot-revoke r L prefix now i j exp s, h.payloads j);
      marks = λ j. ground (arith, revoked_slot-revoke r L prefix now i j exp s, h.marks j);
      sets = λ u j. rw (members-revoke r L prefix now i exp u s) (h.sets u j);
    }

    revokes_refresh-Refines :
        (i : String)
        → Refines (apply (revokes_refresh i) a) (perform r json prefix (revokes_refresh i) s)
    unfolding apply perform
    revokes_refresh-Refines i = record {
      payloads = λ j. ground (
        arith,
        refresh_slot-revoke_refresh r L prefix i j s,
        h.payloads j,
        h.payloads i,
        ttl_left-token_slot (a.open_tokens i),
      );
      marks = λ j. ground (
        arith,
        revoked_slot-revoke_refresh r L prefix i j s,
        h.marks j,
        h.payloads i,
        ttl_left-token_slot (a.open_tokens i),
      );
      sets = λ u j. rw (members-revoke_refresh r L prefix i u s) (h.sets u j);
    }

    registers-Refines :
        (now : ℕ) (u : ℤ) (i : String) (exp : Expiry)
        → Refines
            (apply (registers now u i exp) a)
            (perform r json prefix (registers now u i exp) s)
    unfolding apply perform
    registers-Refines now u i exp = record {
      payloads = λ j. ground (
        arith,
        slot-register_refresh r L prefix json now u i (sub_payload u) exp s j,
        refresh_slot-store_refresh r L prefix json now i j (sub_payload u) exp s,
        h.payloads j,
      );
      marks = λ j.
          ground (
            arith,
            mark-register_refresh r L prefix json now u i (sub_payload u) exp s j,
            h.marks j,
          );
      sets = λ v j. ground (
        arith,
        member-register_any r L prefix json now u i (sub_payload u) exp s v j,
        h.sets v j,
      );
    }

    revokes_all-Refines :
        (u : ℤ) → Refines (apply (revokes_all u) a) (perform r json prefix (revokes_all u) s)
    unfolding apply perform
    revokes_all-Refines u = record {
      payloads = λ j. ground (
        arith,
        refresh_slot-revoke_all r L prefix json u s j,
        h.payloads j,
        h.sets u j,
        ttl_left-token_slot (a.open_tokens j),
      );
      marks = λ j. ground (
        arith,
        revoked_slot-revoke_all r L prefix json u s j,
        h.payloads j,
        h.marks j,
        h.sets u j,
        ttl_left-token_slot (a.open_tokens j),
      );
      sets = λ v j. ground (arith, member-revoke_all r L prefix u v j s, h.sets v j);
    }

  perform-Refines :
      (c : Call) (a : Ledger) (s : r.State)
      → Refines a s
      → Refines (apply c a) (perform r json prefix c s)
  perform-Refines (registers now u i exp) a s h = registers-Refines a s h now u i exp
  perform-Refines (stores now u i exp) a s h = stores-Refines a s h now u i exp
  perform-Refines (revokes now i exp) a s h = revokes-Refines a s h now i exp
  perform-Refines (revokes_refresh i) a s h = revokes_refresh-Refines a s h i
  perform-Refines (deletes i) a s h = deletes-Refines a s h i
  perform-Refines (revokes_all u) a s h = revokes_all-Refines a s h u
  perform-Refines (elapses n) a s h = elapses-Refines a s h n

  perform_all-Refines :
      (cs : List Call) (a : Ledger) (s : r.State)
      → Refines a s
      → Refines (apply_all cs a) (perform_all r json prefix cs s)
  unfolding apply_all perform_all
  perform_all-Refines [] a s h = h
  perform_all-Refines (c ∷ cs) a s h =
      perform_all-Refines cs (apply c a) (perform r json prefix c s) (perform-Refines c a s h)

  -- the payload that a client finds for an open token
  abbrev pub payload : Option (ℤ × ℕ) → Option Json
  payload none = none
  payload (some (u, n)) = some (sub_payload u)

  payload-Refines :
      (laws : JsonLaws json) (a : Ledger) (s : r.State) (j : String)
      → Refines a s
      → get_refresh r json prefix j s ≡ ok (payload (a.open_tokens j))
  payload-Refines laws a s j h =
      rw (get_refresh-slot r L prefix json j s, h.payloads j) (read (a.open_tokens j))
    where
      read : (t : Option (ℤ × ℕ)) → load_payload json (value_of (token_slot t)) ≡ ok (payload t)
      read none = unfold load_payload in refl
      read (some (u, n)) = load-dumps r L prefix json laws u

  mark-Refines :
      (a : Ledger) (s : r.State) (j : String)
      → Refines a s
      → is_revoked r prefix j s ≡ is_given (a.refused j)
  mark-Refines a s j h = rw (is_revoked-slot r L prefix j s, h.marks j) (marked (a.refused j))
    where
      marked : (t : Option ℕ) → not (is_absent (mark_slot t)) ≡ is_given t
      marked none = refl
      marked (some n) = refl

  -- On a server that holds nothing of refresh tokens, whatever sequence of calls is made at
  -- whatever times: what a client then finds for a token is the payload that the abstract view
  -- names, and the token counts as revoked exactly if the view refuses it; a session set has the
  -- tokens that the view has registered.
  pub perform_all-observed :
      (laws : JsonLaws json) (cs : List Call) (s : r.State) (j : String)
      → Refines nothing_known s
      → (get_refresh r json prefix j (perform_all r json prefix cs s)
          ≡ ok (payload ((apply_all cs nothing_known).open_tokens j)))
        × (is_revoked r prefix j (perform_all r json prefix cs s)
            ≡ is_given ((apply_all cs nothing_known).refused j))
        × ((u : ℤ)
            → elem j (r.smembers (key_user_sessions prefix u) (perform_all r json prefix cs s))
              ≡ (apply_all cs nothing_known).registered u j)
  perform_all-observed laws cs s j clean =
      let after_all = perform_all-Refines cs nothing_known s clean in
      (
        payload-Refines laws (apply_all cs nothing_known) (perform_all r json prefix cs s) j
            after_all,
        mark-Refines (apply_all cs nothing_known) (perform_all r json prefix cs s) j after_all,
        λ u. after_all.sets u j,
      )
