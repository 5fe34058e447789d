-- ===== src/Migrations/Initial/Tables.antt =====
-- What the upgrade creates and the downgrade removes.
use events_api.Common.{
  String, ◌≡◌, refl, sym, subst, ap, ◌∙◌, Option, none, some, [], ◌==◌, if◌then◌else◌, eq_iff,
  Bool-cases, inl, inr,
}
use events_api.Common.Action.{Action, then_do, then_do-ok}
use events_api.Common.Result.{Result, ok}
use events_api.External.Schema.{Table, Index, Schema, SchemaLaws, index_without}
use events_api.Migrations.Initial.{
  upgrade, downgrade, migrated_events, migrated_users, uq_users_email_active_only, declared_users,
  declared_index, declared_events,
}

module _ (S : Schema) (L : SchemaLaws S) where
  -- a database in which none of the names is taken
  pub record Bare (s : S.State) : Type 0 where
    pub events : S.table "events" s ≡ none
    pub users : S.table "users" s ≡ none
    pub index : S.index "uq_users_email_active_only" s ≡ none

  -- The names of the migration stand for what it creates, and all else is as in another state.
  pub record Upgraded (s q : S.State) : Type 0 where
    pub tables :
        (m : String)
        → S.table m q ≡ (
            if "users" == m
            then some migrated_users
            else (if "events" == m then some migrated_events else S.table m s))
    pub indexes :
        (i : String)
        → S.index i q ≡ (
            if "uq_users_email_active_only" == i
            then some uq_users_email_active_only
            else S.index i s)

  -- three operations one after the other, of which the first two succeed
  three :
      (f g h : Action S.State) (s : S.State)
      → (f s).0 ≡ ok tt
      → (g (f s).1).0 ≡ ok tt
      → then_do (then_do (f s) g) h ≡ h (g (f s).1).1
  three f g h s fine also =
      ap (λ r. then_do r h) (then_do-ok (f s) g fine) ∙ then_do-ok (g (f s).1) h also

  upgrade-Upgraded : (s : S.State) → Bare s → ((upgrade S s).0 ≡ ok tt) × Upgraded s (upgrade S s).1
  unfolding upgrade
  upgrade-Upgraded s b =
      let first = L.table-created "events" migrated_events s b.events in
      let s1 = (S.create_table "events" migrated_events s).1 in
      let second = L.table-created "users" migrated_users s1 (first.1 "users" ∙ b.users) in
      let s2 = (S.create_table "users" migrated_users s1).1 in
      let third =
        L.index-created "uq_users_email_active_only" uq_users_email_active_only migrated_users s2
          (second.2 "uq_users_email_active_only" ∙ (first.2 "uq_users_email_active_only" ∙ b.index))
          (second.1 "users") in
      subst (λ (r : Result (Unit {0}) × S.State). (r.0 ≡ ok tt) × Upgraded s r.1)
        (sym (
          three (S.create_table "events" migrated_events) (S.create_table "users" migrated_users)
            (S.create_index "uq_users_email_active_only" uq_users_email_active_only) s first.0
            second.0))
        (
          third.0,
          record {
            tables = λ m.
                third.2 m
                ∙ (second.1 m
                    ∙ ap (λ (t : Option Table). if "users" == m then some migrated_users else t)
                        (first.1 m));
            indexes = λ i.
                third.1 i
                ∙ ap
                    (λ (x : Option Index).
                      if "uq_users_email_active_only" == i
                      then some uq_users_email_active_only
                      else x)
                    (second.2 i ∙ first.2 i);
          },
        )

  -- what is taken away is what was there
  removed :
      {A : Type 0} (name : String) (lookup : String → Option A) (a : A) (m : String)
      → lookup name ≡ none
      → (if name == m then none else (if name == m then some a else lookup m)) ≡ lookup m
  removed name lookup a m h = elim (Bool-cases (name == m)) [
    | inl same ↦ rw same (sym h ∙ ap lookup ((eq_iff name m).0 same))
    | inr other ↦ rw other refl
  ]

  removed_both :
      {A : Type 0} (one two : String) (lookup : String → Option A) (a b : A) (m : String)
      → lookup one ≡ none
      → lookup two ≡ none
      → (if two == m
          then none
          else (if one == m
              then none
              else (if one == m then some a else (if two == m then some b else lookup m))))
        ≡ lookup m
  removed_both one two lookup a b m h g = elim (Bool-cases (two == m)) [
    | inl same ↦ rw same (sym g ∙ ap lookup ((eq_iff two m).0 same))
    | inr other ↦ rw other (removed one lookup a m h)
  ]

  -- the first step of the downgrade: the indexes are as before the upgrade
  index_taken_away :
      (s q : S.State)
      → Bare s
      → Upgraded s q
      → ((S.drop_index "uq_users_email_active_only" q).0 ≡ ok tt)
        × ((m : String) → S.table m (S.drop_index "uq_users_email_active_only" q).1 ≡ S.table m q)
        × ((i : String) → S.index i (S.drop_index "uq_users_email_active_only" q).1 ≡ S.index i s)
  index_taken_away s q b up =
      let (fine, indexes, tables) =
        L.index-dropped "uq_users_email_active_only" uq_users_email_active_only q
          (up.indexes "uq_users_email_active_only") in
      (
        fine,
        tables,
        λ i.
            indexes i
            ∙ (ap (λ (x : Option Index). if "uq_users_email_active_only" == i then none else x)
                  (up.indexes i)
                ∙ removed "uq_users_email_active_only" (λ n. S.index n s) uq_users_email_active_only
                    i b.index),
      )

  downgrade-Restored :
      (s q : S.State)
      → Bare s
      → Upgraded s q
      → ((downgrade S q).0 ≡ ok tt)
        × ((m : String) → S.table m (downgrade S q).1 ≡ S.table m s)
        × ((i : String)
            → S.index i (downgrade S q).1
              ≡ index_without "events" (index_without "users" (S.index i s)))
  unfolding downgrade
  downgrade-Restored s q b up =
      let first = index_taken_away s q b up in
      let q1 = (S.drop_index "uq_users_email_active_only" q).1 in
      let second =
        L.table-dropped "users" migrated_users q1 (first.1 "users" ∙ up.tables "users") in
      let q2 = (S.drop_table "users" q1).1 in
      let third =
        L.table-dropped "events" migrated_events q2
          (second.1 "events" ∙ (first.1 "events" ∙ up.tables "events")) in
      rw
        (three (S.drop_index "uq_users_email_active_only") (S.drop_table "users")
          (S.drop_table "events") q first.0 second.0)
        (
          third.0,
          λ m.
              third.1 m
              ∙ (ap (λ (t : Option Table). if "events" == m then none else t)
                    (second.1 m
                      ∙ ap (λ (t : Option Table). if "users" == m then none else t)
                          (first.1 m ∙ up.tables m))
                  ∙ removed_both "users" "events" (λ n. S.table n s) migrated_users migrated_events
                      m b.users b.events),
          λ i.
              third.2 i
              ∙ ap (index_without "events") (second.2 i ∙ ap (index_without "users") (first.2 i)),
        )

  -- The upgrade of a database in which none of its names is taken succeeds. It creates the users
  -- and their unique index as the models declare them, and the events with the columns and the key
  -- of the model but without its foreign key to the users; the downgrade after it succeeds as
  -- well, and every table is then as before, and every index but those of the two tables.
  pub downgrade-upgrade :
      (s : S.State)
      → Bare s
      → ((upgrade S s).0 ≡ ok tt)
        × (S.table "users" (upgrade S s).1 ≡ some declared_users)
        × (S.index "uq_users_email_active_only" (upgrade S s).1 ≡ some declared_index)
        × (S.table "events" (upgrade S s).1 ≡ some (record declared_events { foreign_keys = [] }))
        × ((downgrade S (upgrade S s).1).0 ≡ ok tt)
        × ((m : String) → S.table m (downgrade S (upgrade S s).1).1 ≡ S.table m s)
        × ((i : String)
            → S.index i (downgrade S (upgrade S s).1).1
              ≡ index_without "events" (index_without "users" (S.index i s)))
  downgrade-upgrade s b =
      let (fine, up) = upgrade-Upgraded s b in
      let back = downgrade-Restored s (upgrade S s).1 b up in
      (
        fine,
        up.tables "users",
        up.indexes "uq_users_email_active_only",
        up.tables "events",
        back.0,
        back.1,
        back.2,
      )
