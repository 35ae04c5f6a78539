-- ===== src/Convo/Grouping/Whole.antt =====
-- A new group as a whole.
use bully.Prelude.{
  Bool-cases, List, Option, String, [], ap, ap₂, false, inl, inr, map, none, refl, some, subst, sym,
  ℕ, ◌==◌, ◌∙◌, ◌∷◌, ◌≡◌, ◌⊎◌,
}
use bully.Auth.{Claims, Response}
use bully.Convo.Grouping.{
  CreateGroupRequest, GroupResponse, answer_group, create_group, group_for, grouped, insert_both,
  insert_group, insert_group_conversation, insert_members, make_group, not_grouped,
}
use bully.Convo.Grouping.Joined.{both_ok, invited, members_ok, with_members}
use bully.Convo.Grouping.Parts.{
  conversation_inserted, group_inserted, same_owner, with_conversation, with_group, with_group_lem,
  with_group_row,
}
use bully.Db.{Reply, Uuids, World, ok, pure, statement}
use bully.Db.Calls.{bind_ok, reply_inj, statement_ok}
use bully.Db.Committed.{Arrives, transaction-AllOrNothing}
use bully.Tables.{Db}

module _ (pg : Uuids) (owner_id : String) (req : CreateGroupRequest) where
  -- A group of the owner and the invited, with the ids of the answer.
  abbrev pub IsWhole : GroupResponse → Db → Db → Type 0
  IsWhole made old new =
      (g : ℕ) × (k : ℕ) × (u : ℕ) × (us : List ℕ) × (now : ℕ) × (map pg.parse
          (owner_id ∷ invited owner_id req.member_user_ids)
        ≡ map some (u ∷ us))
      × (made ≡ record { id = pg.print g; name = req.name; conversation_id = pg.print k })
      × (new ≡ with_group g k u us req.name now old)

  make_group-IsWhole :
      (w : World) (made : GroupResponse)
      → (make_group pg owner_id req w).0 ≡ ok made
      → IsWhole made w.db (make_group pg owner_id req w).1.db
  unfolding make_group pure
  make_group-IsWhole w made h =
      let (group_id, h1, r1, same1) =
        bind_ok (statement (insert_group pg req.name owner_id)) _ w made h in
      let (c1, cs1, calls1, f1, row1, after1) = statement_ok _ w group_id h1 in
      let (u, eu, gid, put1) = group_inserted pg req.name owner_id c1 w.db group_id row1 in
      let eg = ap pg.parse gid ∙ pg.parse-print c1.fresh in
      let (convo_id, h2, r2, same2) =
        bind_ok (statement (insert_group_conversation pg group_id)) _ _ made r1 in
      let (c2, cs2, calls2, f2, row2, after2) = statement_ok _ _ convo_id h2 in
      let (kid, put2) = conversation_inserted pg group_id c1.fresh c2 _ convo_id eg row2 in
      let ek = ap pg.parse kid ∙ pg.parse-print c2.fresh in
      let (t3, h3, r3, same3) =
        bind_ok (insert_both pg group_id convo_id "owner" owner_id) _ _ made r2 in
      let (v, ev, put3) =
        both_ok pg group_id convo_id c1.fresh c2.fresh eg ek owner_id "owner" _ h3 in
      let (t4, h4, r4, same4) =
        bind_ok (insert_members pg group_id convo_id owner_id req.member_user_ids) _ _ made r3 in
      let (us, eus, put4) =
        members_ok pg group_id convo_id c1.fresh c2.fresh eg ek owner_id req.member_user_ids _ h4 in
      let owner = same_owner u v (sym eu ∙ ev) in
      let grown =
        ap (λ r. r.1.db) (same1 ∙ same2 ∙ same3 ∙ same4)
        ∙ put4
        ∙ ap (with_members c1.fresh c2.fresh "member" us) (
            put3
            ∙ ap (λ d. with_members c1.fresh c2.fresh "owner" (v ∷ []) d)
                (ap (λ x. x.db) after2
                  ∙ put2
                  ∙ ap (with_conversation c2.fresh c1.fresh c2.now) (
                      ap (λ x. x.db) after1
                      ∙ put1
                      ∙ ap (λ o. with_group_row c1.fresh req.name o w.db) owner))) in
      (
        c1.fresh,
        c2.fresh,
        v,
        us,
        c2.now,
        rw (ev, eus) refl,
        sym (reply_inj _ _ r4)
            ∙ ap₂ (λ x y. record { id = x; name = req.name; conversation_id = y }) gid kid,
        grown ∙ with_group_lem c1.fresh c2.fresh v us req.name c2.now w.db,
      )

answered :
    (made : GroupResponse) (r : Reply GroupResponse)
    → Arrives made r
    → (answer_group r ≡ grouped made) ⊎ ((x : Response) × (answer_group r ≡ not_grouped x))
unfolding answer_group
answered made r (inl came) = inl (ap answer_group came)
answered made r (inr (e, erred)) = inr (_, ap answer_group erred)

-- `CreateGroup` is all or nothing: it leaves the tables as they were and answers with an error, or it
-- has the claims and a request with a name, and adds one group, one conversation of it, and to both
-- the owner and every user of the request whose text is not the owner's, in their order. Then it
-- answers with the ids of the two, or with an error in their place.
pub create_group_atomic :
    (pg : Uuids) (claims : Option Claims) (decoded : Option CreateGroupRequest) (w : World)
    → let t = create_group pg claims decoded w in
      ((t.1.db ≡ w.db) × ((r : Response) × (t.0 ≡ not_grouped r)))
      ⊎ ((c : Claims) × (req : CreateGroupRequest) × (made : GroupResponse) × (claims ≡ some c)
          × (decoded ≡ some req)
          × ((req.name == "") ≡ false)
          × IsWhole pg c.user_id req made w.db t.1.db
          × ((t.0 ≡ grouped made) ⊎ ((r : Response) × (t.0 ≡ not_grouped r))))
unfolding create_group group_for answer_group
create_group_atomic pg none decoded w = inl (refl, (_, refl))
create_group_atomic pg (some c) none w = inl (refl, (_, refl))
create_group_atomic pg (some c) (some req) w = elim (Bool-cases (req.name == "")) [
  | inl empty ↦ rw empty (inl (refl, (_, refl)))
  | inr named ↦ rw named (elim (transaction-AllOrNothing (make_group pg c.user_id req) w) [
    | inl (e, erred, same) ↦ inl (same, (_, ap answer_group erred))
    | inr (cs, made, complete, same, arrives) ↦ inr (
      c,
      req,
      made,
      refl,
      refl,
      named,
      subst (IsWhole pg c.user_id req made w.db) (sym same)
          (make_group-IsWhole pg c.user_id req (record { db = w.db; calls = cs }) made complete),
      answered made _ arrives,
    )
  ])
]
