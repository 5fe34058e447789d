-- ===== src/Samples/ListDatabase.antt =====
-- A table of users as a list, the newest first, with at most one pending change.
use events_api.Common.{
  suc, String, ◌≡◌, refl, Bool, Option, none, some, List, [], ◌∷◌, map, arith, eq_refl, length,
  ◌==◌, if◌then◌else◌, Bool-cases, inl, inr,
}
use events_api.Common.Int.{ℤ, pos, eq_ℤ, eq_ℤ_refl}
use events_api.Common.Result.{Exception, Result, ok, raise, integrity_error, other_error}
use events_api.DataBase.Models.{User}
use events_api.External.Database.{Database, DatabaseLaws}

pub data Pending : Type 0 where
  nothing : Pending
  insertion : String → String → Pending
  update : ℤ → String → Pending

pub record Table : Type 0 where
  pub users : List User
  pub pending : Pending
  pub added : Option User

unfoldable pub find : (User → Bool) → List User → Option User
find p [] = none
find p (u ∷ us) = let rest = find p us in if p u then some u else rest

unfoldable pub with_hash : ℤ → String → User → User
with_hash id hash u = if eq_ℤ u.id id then record u { hashed_password = hash } else u

abbrev pub by_email : String → User → Bool
by_email email u = u.email == email

abbrev pub by_id : ℤ → User → Bool
by_id id u = eq_ℤ u.id id

unfoldable pub new_user : String → String → Table → User
new_user email hash t = record {
  id = pos (suc (length t.users));
  email = email;
  hashed_password = hash;
  created_at = 0;
  updated_at = none;
  last_activity_at = none;
}

abbrev pub insert_if_free : Option User → String → String → Table → Result (Unit {0}) × Table
insert_if_free (some u) email hash t = (raise integrity_error, t)
insert_if_free none email hash t = (
  ok tt,
  record {
    users = new_user email hash t ∷ t.users;
    pending = nothing;
    added = some (new_user email hash t);
  },
)

abbrev pub commit_pending : Pending → Table → Result (Unit {0}) × Table
commit_pending nothing t = (ok tt, t)
commit_pending (insertion email hash) t =
    insert_if_free (find (by_email email) t.users) email hash t
commit_pending (update id hash) t =
    (ok tt, record t { users = map (with_hash id hash) t.users; pending = nothing })

abbrev pub refreshed : Option User → Result User
refreshed none = raise other_error
refreshed (some u) = ok u

abbrev pub list_database : Database
list_database = record {
  State = Table;
  select_by_email = λ email t. find (by_email email) t.users;
  select_by_id = λ id t. find (by_id id) t.users;
  get_user = λ id t. find (by_id id) t.users;
  add_user = λ email hash t. record t { pending = insertion email hash };
  set_hashed_password = λ id hash t. record t { pending = update id hash };
  commit = λ t. commit_pending t.pending t;
  rollback = λ t. record t { pending = nothing };
  refresh_added = λ t. refreshed t.added;
}

pub duplicate :
    (email hash : String) (t : Table) (u : User)
    → t.pending ≡ nothing
    → find (by_email email) t.users ≡ some u
    → (commit_pending (insertion email hash) (record t { pending = insertion email hash })).0
      ≡ raise integrity_error
duplicate email hash t u clean taken = rw taken

pub undone :
    (email hash : String) (t : Table) (e : Exception)
    → t.pending ≡ nothing
    → (commit_pending (insertion email hash) (record t { pending = insertion email hash })).0
      ≡ raise e
    → record (commit_pending
        (insertion email hash)
        (record t { pending = insertion email hash })).1 { pending = nothing }
      ≡ t
undone email hash t e clean failed = ground arith

pub find-with_hash :
    (id : ℤ) (hash : String) (us : List User) (u : User)
    → find (by_id id) us ≡ some u
    → (u' : User) × (find (by_id id) (map (with_hash id hash) us) ≡ some u')
      × (u'.hashed_password ≡ hash)
      × (u'.id ≡ u.id)
unfolding find with_hash
find-with_hash id hash [] u h = cc
find-with_hash id hash (v ∷ vs) u h = elim (Bool-cases (eq_ℤ v.id id)) [
  | inl here ↦ (record v { hashed_password = hash }, rw (here, here), refl, ground arith)
  | inr other ↦
      let (u', found, hashed, same) = find-with_hash id hash vs u (ground arith) in
      (u', rw (other, other) found, hashed, same)
]

pub inserted :
    (email hash : String) (t : Table)
    → t.pending ≡ nothing
    → (commit_pending (insertion email hash) (record t { pending = insertion email hash })).0
      ≡ ok tt
    → (u : User) × (refreshed
          (commit_pending
            (insertion email hash)
            (record t { pending = insertion email hash })).1.added
        ≡ ok u)
      × (find
            (by_email email)
            (commit_pending
              (insertion email hash)
              (record t { pending = insertion email hash })).1.users
          ≡ some u)
      × (find
            (by_id u.id)
            (commit_pending
              (insertion email hash)
              (record t { pending = insertion email hash })).1.users
          ≡ some u)
      × (u.email ≡ email)
      × (u.hashed_password ≡ hash)
unfolding new_user
inserted email hash t clean done = go (find (by_email email) t.users) done
  where
    after : Option User → Table
    after o = (insert_if_free o email hash (record t { pending = insertion email hash })).1

    go :
        (o : Option User)
        → (insert_if_free o email hash (record t { pending = insertion email hash })).0 ≡ ok tt
        → (u : User) × (refreshed (after o).added ≡ ok u)
          × (find (by_email email) (after o).users ≡ some u)
          × (find (by_id u.id) (after o).users ≡ some u)
          × (u.email ≡ email)
          × (u.hashed_password ≡ hash)
    go (some u) h = cc
    go none h = (
      new_user email hash t,
      refl,
      unfold find in rw (eq_refl email),
      unfold find in rw (eq_ℤ_refl (pos (suc (length t.users)))),
      refl,
      refl,
    )

abbrev pub list_database_laws : DatabaseLaws list_database
list_database_laws = record {
  IsClean = λ t. t.pending ≡ nothing;
  add-duplicate = duplicate;
  rollback-add = undone;
  added = inserted;
  updated = λ id hash t u clean there done. find-with_hash id hash t.users u there;
}
