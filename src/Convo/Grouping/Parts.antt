-- ===== src/Convo/Grouping/Parts.antt =====
-- The rows of a new group and of its conversation.
use bully.Prelude.{
  List, String, [], ap, append_assoc, map, nat_beq, not, refl, some, sym, ℕ, ◌&&◌, ◌++◌, ◌∙◌, ◌∷◌,
  ◌≡◌,
}
use bully.Convo.Direct.{insert_conversation, member}
use bully.Convo.Direct.Rows.{inserted_row}
use bully.Convo.Grouping.{in_group, insert_group, insert_group_conversation}
use bully.Convo.Grouping.Joined.{with_members}
use bully.Db.{Call, Uuids, any_row, db_failed, err, ok}
use bully.Db.Calls.{guarded_ok, reply_inj, with_uuid-some, with_uuid_ok}
use bully.Tables.{Db, group}

abbrev pub with_group_row : ℕ → String → ℕ → Db → Db
with_group_row g name u db = record db {
  groups = db.groups ++ record { id = g; name = name; owner_id = u } ∷ [];
}

abbrev pub with_conversation : ℕ → ℕ → ℕ → Db → Db
with_conversation k g now db = record db {
  conversations =
      db.conversations ++ record { id = k; kind = group; group_id = some g; created_at = now } ∷ [];
}

pub same_owner : (u v : ℕ) → some u ≡ some v → u ≡ v
same_owner u v h = cc

-- The tables with a new group of an owner and others, and its conversation.
abbrev pub with_group : ℕ → ℕ → ℕ → List ℕ → String → ℕ → Db → Db
with_group g k u us name now db = record db {
  members = db.members ++ map (member k) (u ∷ us);
  group_members = db.group_members ++ in_group g "owner" u ∷ map (in_group g "member") us;
  groups = db.groups ++ record { id = g; name = name; owner_id = u } ∷ [];
  conversations =
      db.conversations ++ record { id = k; kind = group; group_id = some g; created_at = now } ∷ [];
}

module _ (pg : Uuids) where
  pub group_inserted :
      (name owner_id : String) (c : Call) (db : Db) (id : String)
      → (insert_group pg name owner_id c db).0 ≡ ok id
      → (u : ℕ) × (pg.parse owner_id ≡ some u)
        × (id ≡ pg.print c.fresh)
        × ((insert_group pg name owner_id c db).1 ≡ record db {
          groups = db.groups ++ record { id = c.fresh; name = name; owner_id = u } ∷ [];
        })
  unfolding insert_group
  group_inserted name owner_id c db id h =
      let (u, eu, hu, same) = with_uuid_ok pg owner_id db _ id h in
      let (given, put) =
        guarded_ok
          (any_row (λ r. nat_beq r.id u) db.users
            && not (any_row (λ r. nat_beq r.id c.fresh) db.groups))
          (
            ok (pg.print c.fresh),
            record db {
              groups = db.groups ++ record { id = c.fresh; name = name; owner_id = u } ∷ [];
            },
          )
          (err db_failed, db) id refl hu in
      (u, eu, sym (reply_inj _ _ given), ap (λ r. r.1) (same ∙ put))

  pub conversation_inserted :
      (group_id : String) (g : ℕ) (c : Call) (db : Db) (id : String)
      → pg.parse group_id ≡ some g
      → (insert_group_conversation pg group_id c db).0 ≡ ok id
      → (id ≡ pg.print c.fresh)
        × ((insert_group_conversation pg group_id c db).1 ≡ record db {
          conversations =
              db.conversations
              ++ record { id = c.fresh; kind = group; group_id = some g; created_at = c.now } ∷ [];
        })
  unfolding insert_group_conversation
  conversation_inserted group_id g c db id eg h =
      let names = with_uuid-some pg group_id db _ g eg in
      let (there, put) =
        guarded_ok (any_row (λ r. nat_beq r.id g) db.groups)
          (insert_conversation pg group (some g) c db) (err db_failed, db) id refl
          (rw names at h) in
      let (named, row) = inserted_row pg group (some g) c db id there in
      (named, ap (λ r. r.1) (names ∙ put) ∙ row)

pub with_group_lem :
    (g k u : ℕ) (us : List ℕ) (name : String) (now : ℕ) (db : Db)
    → with_members g k "member" us (
        with_members g k "owner" (u ∷ []) (record db {
          groups = db.groups ++ record { id = g; name = name; owner_id = u } ∷ [];
          conversations =
              db.conversations
              ++ record { id = k; kind = group; group_id = some g; created_at = now } ∷ [];
        }))
      ≡ with_group g k u us name now db
with_group_lem g k u us name now db =
    rw
      (
        append_assoc db.members (member k u ∷ []) (map (member k) us),
        append_assoc db.group_members (in_group g "owner" u ∷ []) (map (in_group g "member") us),
      )
      refl
