-- ===== src/Convo/Laws.antt =====
-- The two queries of membership.go, and the tables.
use bully.Prelude.{String, refl}
use bully.Convo.{is_member, member_ids, select_exists, select_members}
use bully.Db.{Uuids}
use bully.Db.Calls.{Unchanged, unchanged}
use bully.Db.Moves.{Moves, Moves-statement, with_uuid-moves}

pub is_member-Unchanged :
    (pg : Uuids) (conversation_id user_id : String)
    → Moves Unchanged (is_member pg conversation_id user_id)
unfolding is_member select_exists
is_member-Unchanged pg conversation_id user_id = Moves-statement unchanged _ λ c db.
    with_uuid-moves unchanged pg conversation_id db _
      λ k. with_uuid-moves unchanged pg user_id db _ λ u. refl

pub member_ids-Unchanged :
    (pg : Uuids) (conversation_id : String) → Moves Unchanged (member_ids pg conversation_id)
unfolding member_ids select_members
member_ids-Unchanged pg conversation_id =
    Moves-statement unchanged _ λ c db. with_uuid-moves unchanged pg conversation_id db _ λ k. refl
