-- ===== src/TokenCache/Ledger.antt =====
-- What the token cache promises, with no keys, texts or commands of Redis: which refresh tokens are
-- open and for how long, which are refused and for how long, and which a user has registered. The
-- methods of the class are its calls.
pub mod Refinement
use events_api.Common.{
  ℕ, ◌-◌, String, Bool, true, false, not, ◌&&◌, ◌||◌, Option, none, some, List, [], ◌∷◌, ltb, ◌==◌,
  if◌then◌else◌,
}
use events_api.Common.Int.{ℤ, eq_ℤ}
use events_api.External.Redis.{Redis}
use events_api.External.Json.{JsonModule, sub_payload}
use events_api.TokenCache.{
  Expiry, ttl_from_exp, register_refresh, store_refresh, revoke, revoke_refresh,
  revoke_all_user_refresh, delete_refresh,
}

pub record Ledger : Type 0 where
  -- the owner of an open token, and the seconds that are left to it
  pub open_tokens : String → Option (ℤ × ℕ)
  -- the seconds for which a token is refused
  pub refused : String → Option ℕ
  pub registered : ℤ → String → Bool

abbrev pub nothing_known : Ledger
nothing_known = record { open_tokens = λ j. none; refused = λ j. none; registered = λ u j. false }

-- A call of a method at a time; `elapses n` is the passing of `n` seconds.
pub data Call : Type 0 where
  registers stores : ℕ → ℤ → String → Expiry → Call
  revokes : ℕ → String → Expiry → Call
  revokes_refresh deletes : String → Call
  revokes_all : ℤ → Call
  elapses : ℕ → Call

abbrev pub seconds : Option (ℤ × ℕ) → ℕ
seconds none = 0
seconds (some (u, n)) = n

abbrev pub is_open : Option (ℤ × ℕ) → Bool
is_open t = ltb 0 (seconds t)

abbrev pub later : ℕ → Option (ℤ × ℕ) → Option (ℤ × ℕ)
later n none = none
later n (some (u, left)) = if ltb n left then some (u, left - n) else none

abbrev pub refused_later : ℕ → Option ℕ → Option ℕ
refused_later n none = none
refused_later n (some left) = if ltb n left then some (left - n) else none

-- The token is opened, if its expiry is a second or more ahead.
abbrev pub opened : ℤ → String → ℕ → Ledger → String → Option (ℤ × ℕ)
opened u i ttl a j = if (i == j) && ltb 0 ttl then some (u, ttl) else a.open_tokens j

-- Each call on the abstract view.
unfoldable pub apply : Call → Ledger → Ledger
apply (registers now u i exp) a = record {
  open_tokens = opened u i (ttl_from_exp now exp) a;
  refused = a.refused;
  registered = λ v j. (eq_ℤ u v && (ltb 0 (ttl_from_exp now exp) && (i == j))) || a.registered v j;
}
apply (stores now u i exp) a = record {
  open_tokens = opened u i (ttl_from_exp now exp) a;
  refused = a.refused;
  registered = a.registered;
}
apply (revokes now i exp) a = record {
  open_tokens = a.open_tokens;
  refused = λ j.
      if (i == j) && ltb 0 (ttl_from_exp now exp) then some (ttl_from_exp now exp) else a.refused j;
  registered = a.registered;
}
apply (revokes_refresh i) a = record {
  open_tokens = λ j. if (i == j) && is_open (a.open_tokens i) then none else a.open_tokens j;
  refused = λ j.
      if (i == j) && is_open (a.open_tokens i)
      then some (seconds (a.open_tokens i))
      else a.refused j;
  registered = a.registered;
}
apply (deletes i) a = record {
  open_tokens = λ j. if i == j then none else a.open_tokens j;
  refused = a.refused;
  registered = a.registered;
}
apply (revokes_all u) a = record {
  open_tokens =
      λ j. if a.registered u j && is_open (a.open_tokens j) then none else a.open_tokens j;
  refused = λ j.
      if a.registered u j && is_open (a.open_tokens j)
      then some (seconds (a.open_tokens j))
      else a.refused j;
  registered = λ v j. not (eq_ℤ u v) && a.registered v j;
}
apply (elapses n) a = record {
  open_tokens = λ j. later n (a.open_tokens j);
  refused = λ j. refused_later n (a.refused j);
  registered = a.registered;
}

unfoldable pub apply_all : List Call → Ledger → Ledger
apply_all [] a = a
apply_all (c ∷ cs) a = apply_all cs (apply c a)

module _ (r : Redis) (json : JsonModule) (prefix : String) where
  -- Each call on the server.
  unfoldable pub perform : Call → r.State → r.State
  perform (registers now u i exp) s = register_refresh r json prefix now u i (sub_payload u) exp s
  perform (stores now u i exp) s = store_refresh r json prefix now i (sub_payload u) exp s
  perform (revokes now i exp) s = revoke r prefix now i exp s
  perform (revokes_refresh i) s = (revoke_refresh r prefix i s).1
  perform (deletes i) s = delete_refresh r prefix i s
  perform (revokes_all u) s = (revoke_all_user_refresh r prefix u s).1
  perform (elapses n) s = r.elapse n s

  unfoldable pub perform_all : List Call → r.State → r.State
  perform_all [] s = s
  perform_all (c ∷ cs) s = perform_all cs (perform c s)
