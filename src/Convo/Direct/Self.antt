-- ===== src/Convo/Direct/Self.antt =====
-- `CreateDM` of a user with themselves.
use bully.Prelude.{
  Bool, Bool-cases, List, String, [], ap, arith, false, fun_ext, inl, inr, map, nat_beq, none, not,
  refl, some, subst, sym, true, ℕ, ◌&&◌, ◌==◌, ◌∙◌, ◌∷◌, ◌≡◌, ◌≢◌, ◌⊎◌,
}
use bully.Auth.{Claims, Response, write_err}
use bully.Convo.{is_member_row}
use bully.Convo.Direct.{
  Opened, after_select, answer_direct, create_dm, direct_with, insert_conversation, insert_pair,
  is_direct, is_dm, make_direct, may_join, not_opened, opened, select_direct,
}
use bully.Convo.Direct.Picked.{In, picked, some_picked}
use bully.Convo.Listing.{joined}
use bully.Db.{
  Call, Error, Fate, Uuids, World, answer, any_row, db_failed, done, err, first_row, lost, ok,
  refused, rotate, select, statement,
}
use bully.Db.Calls.{Reply-cases, bind_ok, statement_ok, with_uuid-some, with_uuid_ok}
use bully.Db.Committed.{transaction-AllOrNothing}
use bully.Tables.{ConversationRow, Db, MemberRow, dm}

-- The first call is not done.
abbrev pub FirstNotDone : List Call → Type 0
FirstNotDone [] = Unit
FirstNotDone (c ∷ cs) = c.fate ≢ done

-- A direct conversation of the user, with anybody.
abbrev pub is_dm_of : ℕ → List MemberRow → ConversationRow → Bool
is_dm_of u members row = is_dm row.kind && any_row (is_member_row row.id u) members

-- Nothing changes; the answer is an error, for one of three reasons, or a direct conversation of the
-- user that stands in the table.
abbrev pub SelfEnds : Uuids → String → ℕ → World → Opened × World → Type 0
SelfEnds pg peer u w t =
    (t.1.db ≡ w.db)
    × (((reply : Response) × (t.0 ≡ not_opened reply)
          × (((peer == "") ≡ true)
              ⊎ (FirstNotDone w.calls
                  ⊎ (any_row (is_dm_of u w.db.members) w.db.conversations ≡ false))))
        ⊎ ((row : ConversationRow) × In row w.db.conversations
            × (is_dm_of u w.db.members row ≡ true)
            × (t.0 ≡ opened (pg.print row.id))))

same_test : (u : ℕ) (members : List MemberRow) → is_direct u u members ≡ is_dm_of u members
same_test u members = fun_ext λ row. ground arith

not_done : (f : Fate) → f ≢ done → (g : Fate) → g ≡ f → g ≢ done
not_done f h g e k = h (sym e ∙ k)

module _ (pg : Uuids) (user_id peer : String) (u : ℕ) (eu : pg.parse user_id ≡ some u)
    (ep : pg.parse peer ≡ some u) where
  no_pair : (text : String) (c : Call) (db : Db) → (insert_pair pg text user_id peer c db).0 ≢ ok tt
  unfolding insert_pair
  no_pair text c db h =
      let (k, ek, hk, same) = with_uuid_ok pg text db _ tt h in
      elim (Bool-cases (may_join k u db && may_join k u db && not (nat_beq u u))) [
        | inl free ↦ absurd (ground arith)
        | inr taken ↦ cc (
            rw (with_uuid-some pg user_id db _ u eu, with_uuid-some pg peer db _ u ep, taken) at hk)
      ]

  no_direct : (w : World) (id : String) → (make_direct pg user_id peer w).0 ≢ ok id
  unfolding make_direct
  no_direct w id h =
      let (convo, made, rest, whole) =
        bind_ok (statement (insert_conversation pg dm none)) _ w id h in
      let (u0, joined, rest2, whole2) =
        bind_ok (statement (insert_pair pg convo user_id peer)) _ _ id rest in
      let (c2, cs2, wc2, fc2, row2, after2) =
        statement_ok (insert_pair pg convo user_id peer) _ tt joined in
      no_pair convo c2 _ row2

  -- Without a row of the SELECT there is no answer but an error.
  after_err :
      (e : Error) (w : World)
      → let t = after_select pg user_id peer (err e) w in
        (t.1.db ≡ w.db) × ((reply : Response) × (t.0 ≡ not_opened reply))
  unfolding after_select answer_direct
  after_err e w = elim (transaction-AllOrNothing (make_direct pg user_id peer) w) [
    | inl (e1, erred, same) ↦ (same, (write_err 500 "db error", rw erred refl))
    | inr (cs, a, complete, same, arrives) ↦
        absurd (no_direct (record { db = w.db; calls = cs }) a complete)
  ]

  err_ends :
      (e : Error) (db : Db) (calls left : List Call)
      → (FirstNotDone calls ⊎ (any_row (is_dm_of u db.members) db.conversations ≡ false))
      → SelfEnds pg peer u
          (record { db = db; calls = calls })
          (after_select pg user_id peer (err e) (record { db = db; calls = left }))
  err_ends e db calls left why =
      let (same, (reply, told)) = after_err e (record { db = db; calls = left }) in
      (same, inl (reply, told, inr why))

  -- The SELECT was done.
  picked_ends :
      (n : ℕ) (db : Db) (calls left : List Call)
      → SelfEnds pg peer u
          (record { db = db; calls = calls })
          (after_select pg user_id peer
            (first_row (
              map
                (λ r. pg.print r.id)
                (rotate n (select (is_direct u u db.members) db.conversations))))
            (record { db = db; calls = left }))
  unfolding after_select
  picked_ends n db calls left =
      elim (Reply-cases (
        first_row (
          map (λ r. pg.print r.id)
            (rotate n (select (is_direct u u db.members) db.conversations))))) [
              | inl (id, e) ↦
                  let (row, (there, hit), named) =
                    picked (is_direct u u db.members) (λ r. pg.print r.id) n db.conversations id
                      e in
                  rw e (
                    refl,
                    inr (
                      row,
                      there,
                      sym (ap (λ test. test row) (same_test u db.members)) ∙ hit,
                      ap opened named,
                    ),
                  )
              | inr (x, e) ↦ rw e (
                  err_ends x db calls left (
                    inr (elim (Bool-cases (any_row (is_dm_of u db.members) db.conversations)) [
                      | inr nobody ↦ nobody
                      | inl somebody ↦
                          let (id, e2) =
                            some_picked (is_direct u u db.members) (λ r. pg.print r.id) n
                              db.conversations (rw (same_test u db.members) somebody) in
                          absurd (cc (e, e2))
                    ])))
            ]

  fate_ends :
      (c : Call) (cs : List Call) (db : Db) (fate : Fate)
      → c.fate ≡ fate
      → let x = answer fate (select_direct pg user_id peer c db) db in
        SelfEnds pg peer u
          (record { db = db; calls = c ∷ cs })
          (after_select pg user_id peer x.0 (record { db = x.1; calls = cs }))
  unfolding select_direct answer
  fate_ends c cs db refused e =
      err_ends db_failed db (c ∷ cs) cs (inl (not_done refused (λ k. cc) c.fate e))
  fate_ends c cs db lost e =
      rw (with_uuid-some pg user_id db _ u eu, with_uuid-some pg peer db _ u ep)
        (err_ends db_failed db (c ∷ cs) cs (inl (not_done lost (λ k. cc) c.fate e)))
  fate_ends c cs db done e =
      rw (with_uuid-some pg user_id db _ u eu, with_uuid-some pg peer db _ u ep)
        (picked_ends c.pick db (c ∷ cs) cs)

  select_ends :
      (db : Db) (calls : List Call)
      → let x = statement (select_direct pg user_id peer) (record { db = db; calls = calls }) in
        SelfEnds pg peer u
          (record { db = db; calls = calls })
          (after_select pg user_id peer x.0 x.1)
  unfolding statement
  select_ends db [] = err_ends db_failed db [] [] (inl tt)
  select_ends db (c ∷ cs) = fate_ends c cs db c.fate refl

asked :
    (pg : Uuids) (claims : Claims) (peer : String) (w : World)
    → (peer == "") ≡ false
    → let x = statement (select_direct pg claims.user_id peer) w in
      create_dm pg (some claims) (some peer) w ≡ after_select pg claims.user_id peer x.0 x.1
unfolding create_dm direct_with
asked pg claims peer w h = rw h refl

-- If the peer is the user, `CreateDM` changes nothing, whatever happens to its calls, and answers with
-- some direct conversation that the user has, with anybody, or with an error: it is an error only if
-- the text of the peer is empty, the first call is not done or the user has no direct conversation.
pub create_dm_self :
    (pg : Uuids) (claims : Claims) (peer : String) (u : ℕ) (w : World)
    → pg.parse claims.user_id ≡ some u
    → pg.parse peer ≡ some u
    → SelfEnds pg peer u w (create_dm pg (some claims) (some peer) w)
unfolding create_dm direct_with statement
create_dm_self pg claims peer u w eu ep = elim (Bool-cases (peer == "")) [
  | inl empty ↦ rw empty (refl, inl (write_err 400 "invalid body", refl, inl refl))
  | inr some_peer ↦
      subst (SelfEnds pg peer u w) (sym (asked pg claims peer w some_peer))
        (select_ends pg claims.user_id peer u eu ep w.db w.calls)
]
