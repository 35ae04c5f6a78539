-- ===== src/Server/Chats.antt =====
-- What the handlers of conversations do to users and sessions: nothing.
use bully.Prelude.{
  Bool, Bool-cases, List, Option, String, [], ap, false, inl, inr, nat_beq, none, refl, some, true,
  ℕ, ◌==◌, ◌∷◌,
}
use bully.Auth.{Claims}
use bully.Convo.{is_member}
use bully.Convo.Direct.{
  after_select, create_dm, direct_with, insert_conversation, insert_pair, make_direct, may_join,
  select_direct,
}
use bully.Convo.Grouping.{
  CreateGroupRequest, create_group, group_for, insert_both, insert_group, insert_group_conversation,
  insert_group_member, insert_member, insert_members, make_group, may_join_group,
}
use bully.Convo.Laws.{is_member-Unchanged, member_ids-Unchanged}
use bully.Convo.Listing.{list_conversations, list_members, members_allowed, select_conversations}
use bully.Db.{Call, Reply, Uuids, World, any_row, err, ok, statement}
use bully.Db.Calls.{Unchanged}
use bully.Db.Moves.{
  Moves, Moves-bind, Moves-if, Moves-pure, Moves-statement, Moves-transaction, handle-moves,
  if-moves, with_uuid-moves,
}
use bully.Server.Kept.{KeepsAccounts, accounts_kept}
use bully.Tables.{Db, Kind, dm, group}

module _ (pg : Uuids) where
  insert_member-KeepsAccounts :
      (convo_id user_id : String)
      → Moves KeepsAccounts (statement (insert_member pg convo_id user_id))
  unfolding insert_member
  insert_member-KeepsAccounts convo_id user_id = Moves-statement accounts_kept _ λ c db.
      with_uuid-moves accounts_kept pg convo_id db _ λ k.
        with_uuid-moves accounts_kept pg user_id db _
          λ u. if-moves accounts_kept db (may_join k u db) _ _ (refl, refl) (refl, refl)

  insert_conversation-KeepsAccounts :
      (kind : Kind) (group_id : Option ℕ) (c : Call) (db : Db)
      → KeepsAccounts db (insert_conversation pg kind group_id c db).1
  unfolding insert_conversation
  insert_conversation-KeepsAccounts kind group_id c db =
      if-moves accounts_kept db (any_row (λ r. nat_beq r.id c.fresh) db.conversations) _ _
        (refl, refl) (refl, refl)

  make_direct-KeepsAccounts : (a b : String) → Moves KeepsAccounts (make_direct pg a b)
  unfolding make_direct insert_pair
  make_direct-KeepsAccounts a b =
      Moves-bind accounts_kept _ _
        (Moves-statement accounts_kept _ (insert_conversation-KeepsAccounts dm none))
        λ convo.
          Moves-bind accounts_kept _ _
            (Moves-statement accounts_kept _ λ c db.
              with_uuid-moves accounts_kept pg convo db _ λ k.
                with_uuid-moves accounts_kept pg a db _ λ u.
                  with_uuid-moves accounts_kept pg b db _
                    λ v. if-moves accounts_kept db _ _ _ (refl, refl) (refl, refl))
            λ _. Moves-pure accounts_kept convo

  select_direct-KeepsAccounts :
      (a b : String) → Moves KeepsAccounts (statement (select_direct pg a b))
  unfolding select_direct
  select_direct-KeepsAccounts a b = Moves-statement accounts_kept _ λ c db.
      with_uuid-moves accounts_kept pg a db _
        λ u. with_uuid-moves accounts_kept pg b db _ λ v. (refl, refl)

  after_select-KeepsAccounts :
      (a b : String) (r : Reply String) (w : World)
      → KeepsAccounts w.db (after_select pg a b r w).1.db
  unfolding after_select
  after_select-KeepsAccounts a b (ok existing) w = (refl, refl)
  after_select-KeepsAccounts a b (err e) w =
      (Moves-transaction accounts_kept _ (make_direct-KeepsAccounts a b)).moves w

  pub opened_dm :
      (claims : Claims) (peer : Option String) (w : World)
      → KeepsAccounts w.db (create_dm pg (some claims) peer w).1.db
  unfolding create_dm direct_with
  opened_dm claims none w = (refl, refl)
  opened_dm claims (some peer) w = elim (Bool-cases (peer == "")) [
    | inl empty ↦ rw empty (refl, refl)
    | inr some_peer ↦ rw some_peer (
        handle-moves accounts_kept (statement (select_direct pg claims.user_id peer))
          (after_select pg claims.user_id peer) w (select_direct-KeepsAccounts claims.user_id peer)
          (after_select-KeepsAccounts claims.user_id peer))
  ]

  insert_both-KeepsAccounts :
      (group_id convo_id role user_id : String)
      → Moves KeepsAccounts (insert_both pg group_id convo_id role user_id)
  unfolding insert_both insert_group_member
  insert_both-KeepsAccounts group_id convo_id role user_id =
      Moves-bind accounts_kept _ _
        (Moves-statement accounts_kept _ λ c db. with_uuid-moves accounts_kept pg group_id db _ λ g.
          with_uuid-moves accounts_kept pg user_id db _
            λ u. if-moves accounts_kept db (may_join_group g u db) _ _ (refl, refl) (refl, refl))
        λ _. insert_member-KeepsAccounts convo_id user_id

  insert_members-KeepsAccounts :
      (group_id convo_id owner_id : String) (texts : List String)
      → Moves KeepsAccounts (insert_members pg group_id convo_id owner_id texts)
  unfolding insert_members
  insert_members-KeepsAccounts group_id convo_id owner_id [] = Moves-pure accounts_kept tt
  insert_members-KeepsAccounts group_id convo_id owner_id (text ∷ texts) =
      let others = insert_members-KeepsAccounts group_id convo_id owner_id texts in
      Moves-if accounts_kept (text == owner_id) _ _ others (
        Moves-bind accounts_kept _ _ (insert_both-KeepsAccounts group_id convo_id "member" text)
          λ _. others)

  insert_group-KeepsAccounts :
      (name owner_id : String) → Moves KeepsAccounts (statement (insert_group pg name owner_id))
  unfolding insert_group
  insert_group-KeepsAccounts name owner_id = Moves-statement accounts_kept _ λ c db.
      with_uuid-moves accounts_kept pg owner_id db _
        λ u. if-moves accounts_kept db _ _ _ (refl, refl) (refl, refl)

  group_conversation-KeepsAccounts :
      (group_id : String) → Moves KeepsAccounts (statement (insert_group_conversation pg group_id))
  unfolding insert_group_conversation
  group_conversation-KeepsAccounts group_id = Moves-statement accounts_kept _ λ c db.
      with_uuid-moves accounts_kept pg group_id db _ λ g.
        if-moves accounts_kept db (any_row (λ r. nat_beq r.id g) db.groups) _ _
          (insert_conversation-KeepsAccounts group (some g) c db) (refl, refl)

  make_group-KeepsAccounts :
      (owner_id : String) (req : CreateGroupRequest)
      → Moves KeepsAccounts (make_group pg owner_id req)
  unfolding make_group
  make_group-KeepsAccounts owner_id req =
      Moves-bind accounts_kept _ _ (insert_group-KeepsAccounts req.name owner_id) λ g.
        Moves-bind accounts_kept _ _ (group_conversation-KeepsAccounts g) λ k.
          Moves-bind accounts_kept _ _ (insert_both-KeepsAccounts g k "owner" owner_id) λ _.
            Moves-bind accounts_kept _ _
              (insert_members-KeepsAccounts g k owner_id req.member_user_ids)
              λ _. Moves-pure accounts_kept _

  pub made_group :
      (claims : Claims) (decoded : Option CreateGroupRequest) (w : World)
      → KeepsAccounts w.db (create_group pg (some claims) decoded w).1.db
  unfolding create_group group_for
  made_group claims none w = (refl, refl)
  made_group claims (some req) w = elim (Bool-cases (req.name == "")) [
    | inl empty ↦ rw empty (refl, refl)
    | inr named ↦
        rw named (
          (Moves-transaction accounts_kept _ (make_group-KeepsAccounts claims.user_id req)).moves w)
  ]

  select_conversations-KeepsAccounts :
      (user_id : String) → Moves KeepsAccounts (statement (select_conversations pg user_id))
  unfolding select_conversations
  select_conversations-KeepsAccounts user_id =
      Moves-statement accounts_kept _
        λ c db. with_uuid-moves accounts_kept pg user_id db _ λ u. (refl, refl)

  pub listed_conversations :
      (claims : Claims) (w : World)
      → KeepsAccounts w.db (list_conversations pg (some claims) w).1.db
  unfolding list_conversations
  listed_conversations claims w = (select_conversations-KeepsAccounts claims.user_id).moves w

  kept : (a b : Db) → Unchanged a b → KeepsAccounts a b
  kept a b same = (ap (λ d. d.users) same, ap (λ d. d.sessions) same)

  allowed-KeepsAccounts :
      (conversation_id : String) (r : Reply Bool) (w : World)
      → KeepsAccounts w.db (members_allowed pg conversation_id r w).1.db
  unfolding members_allowed
  allowed-KeepsAccounts conversation_id (err e) w = (refl, refl)
  allowed-KeepsAccounts conversation_id (ok false) w = (refl, refl)
  allowed-KeepsAccounts conversation_id (ok true) w =
      kept w.db _ ((member_ids-Unchanged pg conversation_id).moves w)

  pub listed_members :
      (claims : Claims) (conversation_id : String) (w : World)
      → KeepsAccounts w.db (list_members pg (some claims) conversation_id w).1.db
  unfolding list_members
  listed_members claims conversation_id w =
      handle-moves accounts_kept (is_member pg conversation_id claims.user_id)
        (members_allowed pg conversation_id) w
        (record {
          moves =
              λ v. kept v.db _ ((is_member-Unchanged pg conversation_id claims.user_id).moves v);
        })
        (allowed-KeepsAccounts conversation_id)
