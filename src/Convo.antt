-- ===== src/Convo.antt =====
-- convo/membership.go: who belongs to a conversation.
pub mod Laws
pub mod Direct
pub mod Grouping
pub mod Listing
use bully.Prelude.{Bool, List, String, map, nat_beq, ℕ, ◌&&◌}
use bully.Db.{Call, DbM, Reply, Uuids, any_row, arrived, ok, select, statement, with_uuid}
use bully.Tables.{Db, MemberRow}

abbrev pub is_member_row : ℕ → ℕ → MemberRow → Bool
is_member_row conversation u r = nat_beq r.conversation_id conversation && nat_beq r.user_id u

unfoldable pub select_exists : Uuids → String → String → Call → Db → Reply Bool × Db
select_exists pg conversation_id user_id c db = with_uuid pg conversation_id db λ conversation.
    with_uuid pg user_id db λ u. (ok (any_row (is_member_row conversation u) db.members), db)

-- `IsMember`
unfoldable pub is_member : Uuids → String → String → DbM Bool
is_member pg conversation_id user_id = statement (select_exists pg conversation_id user_id)

unfoldable pub select_members : Uuids → String → Call → Db → Reply (List String) × Db
select_members pg conversation_id c db = with_uuid pg conversation_id db λ conversation. (
  ok (
      arrived c.break_after (
        map (λ r. pg.print r.user_id)
          (select (λ r. nat_beq r.conversation_id conversation) db.members))),
  db,
)

-- `MemberIDs`
unfoldable pub member_ids : Uuids → String → DbM (List String)
member_ids pg conversation_id = statement (select_members pg conversation_id)
