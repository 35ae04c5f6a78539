-- ===== src/Convo/Direct/Rows.antt =====
-- The INSERT into conversations.
use bully.Prelude.{Bool-cases, Option, String, [], inl, inr, nat_beq, refl, sym, ℕ, ◌++◌, ◌∷◌, ◌≡◌}
use bully.Convo.Direct.{insert_conversation}
use bully.Db.{Call, Uuids, any_row, ok}
use bully.Db.Calls.{reply_inj}
use bully.Tables.{Db, Kind}

pub inserted_row :
    (pg : Uuids) (kind : Kind) (group_id : Option ℕ) (c : Call) (db : Db) (id : String)
    → (insert_conversation pg kind group_id c db).0 ≡ ok id
    → (id ≡ pg.print c.fresh)
      × ((insert_conversation pg kind group_id c db).1 ≡ record db {
        conversations =
            db.conversations
            ++ record { id = c.fresh; kind = kind; group_id = group_id; created_at = c.now } ∷ [];
      })
unfolding insert_conversation
inserted_row pg kind group_id c db id h =
    elim (Bool-cases (any_row (λ r. nat_beq r.id c.fresh) db.conversations)) [
      | inl taken ↦ cc (rw taken at h)
      | inr free ↦ rw free (sym (reply_inj _ _ (rw free at h)), refl)
    ]
