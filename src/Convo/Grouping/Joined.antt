-- ===== src/Convo/Grouping/Joined.antt =====
-- The rows of the members of a new group.
use bully.Prelude.{
  Bool-cases, List, String, [], ap, append-nil, append_assoc, inl, inr, map, not, refl, some, ℕ,
  ◌++◌, ◌==◌, ◌∙◌, ◌∷◌, ◌≡◌,
}
use bully.Convo.Direct.{may_join, member}
use bully.Convo.Grouping.{
  in_group, insert_both, insert_group_member, insert_member, insert_members, may_join_group,
}
use bully.Db.{Call, Uuids, World, db_failed, err, ok, pure, select, statement}
use bully.Db.Calls.{bind_ok, guarded_ok, statement_ok, with_uuid-some, with_uuid_ok}
use bully.Tables.{Db}

-- The tables with some users put into a group and its conversation.
abbrev pub with_members : ℕ → ℕ → String → List ℕ → Db → Db
with_members g k role us db = record db {
  members = db.members ++ map (member k) us;
  group_members = db.group_members ++ map (in_group g role) us;
}

-- The texts of the request other than the owner's.
abbrev pub invited : String → List String → List String
invited owner_id texts = select (λ text. not (text == owner_id)) texts

none_added : (g k : ℕ) (role : String) (db : Db) → db ≡ with_members g k role [] db
none_added g k role db = rw (append-nil db.members, append-nil db.group_members) refl

more_added :
    (g k u : ℕ) (role : String) (us : List ℕ) (db : Db)
    → with_members g k role us (with_members g k role (u ∷ []) db)
      ≡ with_members g k role (u ∷ us) db
more_added g k u role us db =
    rw
      (
        append_assoc db.members (member k u ∷ []) (map (member k) us),
        append_assoc db.group_members (in_group g role u ∷ []) (map (in_group g role) us),
      )
      refl

module _ (pg : Uuids) (group_id convo_id : String) (g k : ℕ) (eg : pg.parse group_id ≡ some g)
    (ek : pg.parse convo_id ≡ some k) where
  in_group_ok :
      (user_id role : String) (c : Call) (db : Db)
      → (insert_group_member pg group_id user_id role c db).0 ≡ ok tt
      → (u : ℕ) × (pg.parse user_id ≡ some u)
        × ((insert_group_member pg group_id user_id role c db).1
            ≡ record db { group_members = db.group_members ++ in_group g role u ∷ [] })
  unfolding insert_group_member
  in_group_ok user_id role c db h =
      let names = with_uuid-some pg group_id db _ g eg in
      let (u, eu, hu, same) = with_uuid_ok pg user_id db _ tt (rw names at h) in
      let put =
        guarded_ok (may_join_group g u db)
          (ok tt, record db { group_members = db.group_members ++ in_group g role u ∷ [] })
          (err db_failed, db) tt refl hu in
      (u, eu, ap (λ r. r.1) (names ∙ same ∙ put.1))

  member_ok :
      (user_id : String) (u : ℕ) (c : Call) (db : Db)
      → pg.parse user_id ≡ some u
      → (insert_member pg convo_id user_id c db).0 ≡ ok tt
      → (insert_member pg convo_id user_id c db).1
        ≡ record db { members = db.members ++ member k u ∷ [] }
  unfolding insert_member
  member_ok user_id u c db eu h =
      let names = with_uuid-some pg convo_id db _ k ek ∙ with_uuid-some pg user_id db _ u eu in
      let put =
        guarded_ok (may_join k u db) (ok tt, record db { members = db.members ++ member k u ∷ [] })
          (err db_failed, db) tt refl (rw names at h) in
      ap (λ r. r.1) (names ∙ put.1)

  pub both_ok :
      (user_id role : String) (w : World)
      → (insert_both pg group_id convo_id role user_id w).0 ≡ ok tt
      → (u : ℕ) × (pg.parse user_id ≡ some u)
        × ((insert_both pg group_id convo_id role user_id w).1.db
            ≡ with_members g k role (u ∷ []) w.db)
  unfolding insert_both
  both_ok user_id role w h =
      let (t1, h1, rest, same1) =
        bind_ok (statement (insert_group_member pg group_id user_id role)) _ w tt h in
      let (c1, cs1, calls1, fate1, row1, after1) = statement_ok _ w t1 h1 in
      let (u, eu, put1) = in_group_ok user_id role c1 w.db row1 in
      let (c2, cs2, calls2, fate2, row2, after2) =
        statement_ok (insert_member pg convo_id user_id) _ tt rest in
      let put2 = member_ok user_id u c2 _ eu row2 in
      (
        u,
        eu,
        ap (λ r. r.1.db) same1
            ∙ ap (λ x. x.db) after2
            ∙ put2
            ∙ ap (λ (d : Db). record d { members = d.members ++ member k u ∷ [] })
                (ap (λ x. x.db) after1 ∙ put1),
      )

  pub members_ok :
      (owner_id : String) (texts : List String) (w : World)
      → (insert_members pg group_id convo_id owner_id texts w).0 ≡ ok tt
      → (us : List ℕ) × (map pg.parse (invited owner_id texts) ≡ map some us)
        × ((insert_members pg group_id convo_id owner_id texts w).1.db
            ≡ with_members g k "member" us w.db)
  unfolding insert_members select pure
  members_ok owner_id [] w h = ([], refl, none_added g k "member" w.db)
  members_ok owner_id (text ∷ texts) w h = elim (Bool-cases (text == owner_id)) [
    | inl own ↦ rw own (members_ok owner_id texts w (rw own at h))
    | inr other ↦
        let (t, h1, rest, same) =
          bind_ok (insert_both pg group_id convo_id "member" text) _ w tt (rw other at h) in
        let (u, eu, put) = both_ok text "member" w h1 in
        let (us, eus, puts) =
          members_ok owner_id texts (insert_both pg group_id convo_id "member" text w).1 rest in
        (
          u ∷ us,
          rw (other, eu, eus) refl,
          rw (other, same, puts, put) (more_added g k u "member" us w.db),
        )
  ]
