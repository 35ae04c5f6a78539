-- ===== src/Tests/Chats.antt =====
-- Tests of the conversation handlers.
use mathlib.Core.List.{Perm}
use bully.Prelude.{
  List, String, [], arith, false, inr, map, nat_beq, none, refl, some, true, ℕ, ◌++◌, ◌==◌, ◌∷◌,
  ◌≡◌, ◌⊎◌,
}
use bully.Auth.{Claims, Response, write_err}
use bully.Convo.{is_member, is_member_row, member_ids, select_exists, select_members}
use bully.Convo.Direct.{
  create_dm, insert_conversation, insert_pair, make_direct, may_join, member, opened, select_direct,
}
use bully.Convo.Direct.Again.{create_dm-create_dm}
use bully.Convo.Direct.Self.{SelfEnds, create_dm_self}
use bully.Convo.Grouping.{
  CreateGroupRequest, GroupResponse, create_group, grouped, insert_both, insert_group,
  insert_group_conversation, insert_group_member, insert_member, insert_members, make_group,
  may_join_group, not_grouped,
}
use bully.Convo.Grouping.Whole.{IsWhole, create_group_atomic}
use bully.Convo.Listing.{
  ConversationListItem, group_name_of, insert_by_created, item_of, joined, list_conversations,
  list_members, not_shown, order_by_created, print_group, select_conversations, shown,
}
use bully.Convo.Listing.Visible.{
  IsOldestFirst, OnePerUser, list_conversations_sound, list_members_guarded,
}
use bully.Db.{
  Call, World, answer, any_row, arrived, continue, done, first_row, issue, pure, select, statement,
  with_uuid, ◌>>=◌,
}
use bully.Db.Tx.{transaction}
use bully.Tables.{ConversationRow, Db, UserRow, dm}
use bully.Tests.{ids, unary}
use bully.Tests.Sessions.{ann, tables}

abbrev user_of : ℕ → String → UserRow
user_of id name = record {
  id = id;
  username = name;
  password_hash = "h";
  session_inactivity_seconds = 3600;
}

-- The users 1, 2 and 3, of whom 1 and 2 have a conversation.
abbrev chats : Db
chats = record tables {
  users = user_of 1 "ann" ∷ user_of 2 "bob" ∷ user_of 3 "eve" ∷ [];
  members = member 7 1 ∷ member 7 2 ∷ [];
  conversations = record { id = 7; kind = dm; group_id = none; created_at = 5 } ∷ [];
}

abbrev call_with : ℕ → Call
call_with fresh = record { now = 9; fresh = fresh; fate = done; break_after = none; pick = 0 }

abbrev bob : Claims
bob = record { user_id = "xx"; username = "bob"; session_id = "xxx" }

abbrev five_calls : List Call
five_calls = call_with 4 ∷ call_with 4 ∷ call_with 4 ∷ call_with 4 ∷ call_with 4 ∷ []

create_dm_self_example :
    SelfEnds ids "x" 1
      (record { db = chats; calls = five_calls })
      (create_dm ids (some ann) (some "x") (record { db = chats; calls = five_calls }))
create_dm_self_example =
    create_dm_self ids ann "x" 1 (record { db = chats; calls = five_calls }) refl refl

-- The user 1 opens a conversation with the user 3, and then 3 one with 1.
abbrev calling : World
calling = record { db = chats; calls = five_calls }

first_opened : (create_dm ids (some ann) (some "xxx") calling).0 ≡ opened "xxxx"
unfolding create_dm select_direct insert_pair make_direct insert_conversation statement issue answer
    with_uuid select first_row any_row may_join transaction pure ◌>>=◌ continue
first_opened = refl

abbrev eve : Claims
eve = record { user_id = "xxx"; username = "eve"; session_id = "x" }

create_dm-create_dm_example :
    let old = (create_dm ids (some ann) (some "xxx") calling).1.db in
    let t = create_dm ids (some eve) (some "x") (record { db = old; calls = call_with 6 ∷ [] }) in
    (again : String) × (t.0 ≡ opened again) × (t.1.db ≡ old)
create_dm-create_dm_example =
    create_dm-create_dm ids ann eve "xxx" "x" 1 3 calling "xxxx" (call_with 6) [] refl refl
      (inr (refl, refl)) refl refl first_opened

abbrev club : CreateGroupRequest
club = record { name = "club"; member_user_ids = "xx" ∷ "x" ∷ "xxx" ∷ [] }

abbrev founding : World
founding = record {
  db = chats;
  calls = five_calls ++ call_with 4 ∷ call_with 4 ∷ call_with 4 ∷ call_with 4 ∷ call_with 4 ∷ [];
}

-- The owner's own text among the members is passed over.
club_founded :
    (create_group ids (some ann) (some club) founding).0
    ≡ grouped (record { id = "xxxx"; name = "club"; conversation_id = "xxxx" })
unfolding create_group insert_group insert_group_conversation insert_group_member insert_member
    insert_both insert_members make_group insert_conversation statement issue answer with_uuid
    any_row may_join may_join_group transaction pure ◌>>=◌ continue
club_founded = refl

create_group_atomic_example :
    let t = create_group ids (some ann) (some club) founding in
    ((t.1.db ≡ founding.db) × ((r : Response) × (t.0 ≡ not_grouped r)))
    ⊎ ((c : Claims) × (req : CreateGroupRequest) × (made : GroupResponse) × (some ann ≡ some c)
        × (some club ≡ some req)
        × ((req.name == "") ≡ false)
        × IsWhole ids c.user_id req made founding.db t.1.db
        × ((t.0 ≡ grouped made) ⊎ ((r : Response) × (t.0 ≡ not_grouped r))))
create_group_atomic_example = create_group_atomic ids (some ann) (some club) founding

abbrev one_item : List ConversationListItem
one_item = record { id = unary 7; kind = dm; group_id = none; group_name = none } ∷ []

one_shown : (list_conversations ids (some ann) calling).0 ≡ shown one_item
unfolding list_conversations select_conversations statement issue answer with_uuid select joined
    order_by_created insert_by_created item_of group_name_of print_group
one_shown = refl

one_each : OnePerUser 1 chats.members chats.conversations
unfolding select
one_each = (omega arith, tt)

list_conversations_sound_example :
    (c : Call) × (cs : List Call) × (rows : List ConversationRow) × (calling.calls ≡ c ∷ cs)
    × (one_item ≡ map (item_of ids calling.db.groups) (arrived c.break_after rows))
    × IsOldestFirst rows
    × Perm rows
        (select (λ r. any_row (is_member_row r.id 1) calling.db.members) calling.db.conversations)
    × ((list_conversations ids (some ann) calling).1.db ≡ calling.db)
list_conversations_sound_example =
    list_conversations_sound ids ann calling 1 one_item refl one_each one_shown

both_shown : (list_members ids (some bob) (unary 7) calling).0 ≡ shown ("x" ∷ "xx" ∷ [])
unfolding list_members is_member member_ids select_exists select_members statement issue answer
    with_uuid select any_row
both_shown = refl

eve_refused :
    (list_members ids (some eve) (unary 7) calling).0 ≡ not_shown (write_err 403 "forbidden")
unfolding list_members is_member select_exists statement issue answer with_uuid any_row
eve_refused = refl

list_members_guarded_example :
    (c : Claims) × (u k : ℕ) × (first second : Call) × (cs : List Call) × (some bob ≡ some c)
    × (calling.calls ≡ first ∷ second ∷ cs)
    × (ids.parse c.user_id ≡ some u)
    × (ids.parse (unary 7) ≡ some k)
    × (any_row (is_member_row k u) calling.db.members ≡ true)
    × (("x" ∷ "xx" ∷ [])
        ≡ arrived second.break_after (
            map
              (λ r. ids.print r.user_id)
              (select (λ r. nat_beq r.conversation_id k) calling.db.members)))
    × ((list_members ids (some bob) (unary 7) calling).1.db ≡ calling.db)
list_members_guarded_example =
    list_members_guarded ids (some bob) (unary 7) calling ("x" ∷ "xx" ∷ []) both_shown
