-- ===== src/Convo/Direct/Again.antt =====
-- `CreateDM` after `CreateDM`, by either of the two users.
use bully.Prelude.{
  Bool, Bool-cases, List, String, [], ap, arith, false, fun_ext, inl, inr, nat_beq, none, not, refl,
  some, sym, true, ℕ, ◌&&◌, ◌++◌, ◌==◌, ◌∙◌, ◌∷◌, ◌≡◌, ◌⊎◌,
}
use bully.Auth.{Claims}
use bully.Convo.{is_member_row}
use bully.Convo.Direct.{
  after_select, answer_direct, create_dm, direct_with, insert_conversation, insert_pair, is_direct,
  make_direct, may_join, member, opened, select_direct,
}
use bully.Convo.Direct.Picked.{picked-any_row, some_picked}
use bully.Convo.Direct.Rows.{inserted_row}
use bully.Convo.Listing.{joined}
use bully.Db.{Call, Reply, Uuids, World, any_row, done, err, ok, pure, statement}
use bully.Db.Calls.{bind_ok, statement_done, statement_ok, with_uuid-some}
use bully.Db.Committed.{transaction-AllOrNothing}
use bully.Keys.View.{put}
use bully.Tables.{Db, MemberRow, dm}

-- A direct conversation of the two stands in the tables.
abbrev pub HaveDirect : ℕ → ℕ → Db → Type 0
HaveDirect u v db = any_row (is_direct u v db.members) db.conversations ≡ true

any_row_later {ℓ} :
    {A : Type ℓ} (test : A → Bool) (xs ys : List A)
    → any_row test ys ≡ true
    → any_row test (xs ++ ys) ≡ true
unfolding any_row
any_row_later test [] ys h = h
any_row_later test (x ∷ xs) ys h = ground (arith, any_row_later test xs ys h)

member_pair :
    (k u v : ℕ) (members : List MemberRow)
    → (any_row (is_member_row k u) (members ++ member k u ∷ member k v ∷ []) ≡ true)
      × (any_row (is_member_row k v) (members ++ member k u ∷ member k v ∷ []) ≡ true)
unfolding any_row
member_pair k u v members = (
  any_row_later (is_member_row k u) members (member k u ∷ member k v ∷ []) (ground arith),
  any_row_later (is_member_row k v) members (member k u ∷ member k v ∷ []) (ground arith),
)

-- The new conversation with its two members is one of the two.
new_direct :
    (c : Call) (u v : ℕ) (old db : Db)
    → db ≡ record old {
      conversations =
          old.conversations
          ++ record { id = c.fresh; kind = dm; group_id = none; created_at = c.now } ∷ [];
    }
    → HaveDirect u v
        (record db { members = db.members ++ member c.fresh u ∷ member c.fresh v ∷ [] })
unfolding any_row
new_direct c u v old db e =
    let (has_u, has_v) = member_pair c.fresh u v db.members in
    rw (ap (λ d. d.conversations) e) (any_row_later _ old.conversations _ (rw (has_u, has_v) refl))

module _ (pg : Uuids) (user_id peer_id : String) (u v : ℕ) (eu : pg.parse user_id ≡ some u)
    (ev : pg.parse peer_id ≡ some v) where
  pair_joined :
      (k : ℕ) (text : String) (c : Call) (db : Db)
      → text ≡ pg.print k
      → (insert_pair pg text user_id peer_id c db).0 ≡ ok tt
      → (insert_pair pg text user_id peer_id c db).1
        ≡ record db { members = db.members ++ member k u ∷ member k v ∷ [] }
  unfolding insert_pair
  pair_joined k text c db e h =
      let names =
        with_uuid-some pg text db _ k (ap pg.parse e ∙ pg.parse-print k)
        ∙ with_uuid-some pg user_id db _ u eu
        ∙ with_uuid-some pg peer_id db _ v ev in
      ap (λ r. r.1) names
      ∙ elim (Bool-cases (may_join k u db && may_join k v db && not (nat_beq u v))) [
        | inl free ↦ rw free refl
        | inr taken ↦ cc (rw taken at (sym (ap (λ r. r.0) names) ∙ h))
      ]

  made_direct :
      (w : World) (id : String)
      → (make_direct pg user_id peer_id w).0 ≡ ok id
      → HaveDirect u v (make_direct pg user_id peer_id w).1.db
  unfolding make_direct pure
  made_direct w id h =
      let (convo, made, rest, whole) =
        bind_ok (statement (insert_conversation pg dm none)) _ w id h in
      let (c, cs, wc, fc, row, after) =
        statement_ok (insert_conversation pg dm none) w convo made in
      let (named, put) = inserted_row pg dm none c w.db convo row in
      let (u0, joined, rest2, whole2) =
        bind_ok (statement (insert_pair pg convo user_id peer_id)) _ _ id rest in
      let (c2, cs2, wc2, fc2, row2, after2) =
        statement_ok (insert_pair pg convo user_id peer_id) _ tt joined in
      rw (whole ∙ whole2, ap (λ x. x.db) after2 ∙ pair_joined c.fresh convo c2 _ named row2)
        (new_direct c u v w.db _ (ap (λ x. x.db) after ∙ put))

  opened_direct :
      (r : Reply String) (w : World) (id : String)
      → (r ≡ ok id → HaveDirect u v w.db)
      → (after_select pg user_id peer_id r w).0 ≡ opened id
      → HaveDirect u v (after_select pg user_id peer_id r w).1.db
  unfolding after_select answer_direct
  opened_direct (ok existing) w id known h = known cc
  opened_direct (err e) w id known h =
      elim (transaction-AllOrNothing (make_direct pg user_id peer_id) w) [
        | inl (e1, erred, same) ↦ cc (rw erred at h)
        | inr (cs, a, complete, same, arrives) ↦
            rw same (made_direct (record { db = w.db; calls = cs }) a complete)
      ]

  -- A direct conversation that was found stands in the tables.
  select_found :
      (w : World) (id : String)
      → (statement (select_direct pg user_id peer_id) w).0 ≡ ok id
      → HaveDirect u v (statement (select_direct pg user_id peer_id) w).1.db
  unfolding select_direct
  select_found w id h =
      let (c, cs, wc, fc, row, after) = statement_ok (select_direct pg user_id peer_id) w id h in
      let names = with_uuid-some pg user_id w.db _ u eu ∙ with_uuid-some pg peer_id w.db _ v ev in
      rw (ap (λ x. x.db) after ∙ ap (λ r. r.1) names) (
        picked-any_row (is_direct u v w.db.members) _ c.pick w.db.conversations id
          (rw names at row))

module _ (pg : Uuids) (claims : Claims) (peer : String) (u v : ℕ)
    (eu : pg.parse claims.user_id ≡ some u) (ev : pg.parse peer ≡ some v) where
  opened-HaveDirect :
      (w : World) (id : String)
      → (create_dm pg (some claims) (some peer) w).0 ≡ opened id
      → HaveDirect u v (create_dm pg (some claims) (some peer) w).1.db
  unfolding create_dm direct_with
  opened-HaveDirect w id h = elim (Bool-cases (peer == "")) [
    | inl empty ↦ cc (rw empty at h)
    | inr some_peer ↦ rw some_peer (
        opened_direct pg claims.user_id peer u v eu ev
          (statement (select_direct pg claims.user_id peer) w).0
          (statement (select_direct pg claims.user_id peer) w).1 id
          (select_found pg claims.user_id peer u v eu ev w id) (rw some_peer at h))
  ]

  found_again :
      (db : Db) (c : Call) (cs : List Call)
      → (peer == "") ≡ false
      → c.fate ≡ done
      → HaveDirect u v db
      → let t = create_dm pg (some claims) (some peer) (record { db = db; calls = c ∷ cs }) in
        (id : String) × (t.0 ≡ opened id) × (t.1.db ≡ db)
  unfolding create_dm direct_with after_select select_direct
  found_again db c cs some_peer fc have =
      let (id, first) = some_picked (is_direct u v db.members) (λ r. pg.print r.id) c.pick _ have in
      let found =
        statement_done (select_direct pg claims.user_id peer) db c cs fc
        ∙ ap (λ x. (x.0, record { db = x.1; calls = cs }))
            (with_uuid-some pg claims.user_id db _ u eu
              ∙ with_uuid-some pg peer db _ v ev
              ∙ ap (λ x. (x, db)) first) in
      (id, rw (some_peer, found) refl, rw (some_peer, found) refl)

swapped_test : (u v : ℕ) (members : List MemberRow) → is_direct u v members ≡ is_direct v u members
swapped_test u v members = fun_ext (λ row. ground arith)

have_swapped : (u v : ℕ) (db : Db) → HaveDirect u v db → HaveDirect v u db
have_swapped u v db have = rw (sym (swapped_test u v db.members)) have

-- After a `CreateDM` that answered with a conversation, one of either user for the other, whose
-- SELECT is done, answers with a conversation too, and changes nothing.
pub create_dm-create_dm :
    (pg : Uuids) (claims other : Claims) (peer back : String) (u v : ℕ) (w : World) (id : String)
    (c : Call) (cs : List Call)
    → pg.parse claims.user_id ≡ some u
    → pg.parse peer ≡ some v
    → ((pg.parse other.user_id ≡ some u) × (pg.parse back ≡ some v))
      ⊎ ((pg.parse other.user_id ≡ some v) × (pg.parse back ≡ some u))
    → (back == "") ≡ false
    → c.fate ≡ done
    → (create_dm pg (some claims) (some peer) w).0 ≡ opened id
    → let old = (create_dm pg (some claims) (some peer) w).1.db in
      let t = create_dm pg (some other) (some back) (record { db = old; calls = c ∷ cs }) in
      (again : String) × (t.0 ≡ opened again) × (t.1.db ≡ old)
create_dm-create_dm pg claims other peer back u v w id c cs eu ev way some_back fc h =
    let old = (create_dm pg (some claims) (some peer) w).1.db in
    let have = opened-HaveDirect pg claims peer u v eu ev w id h in
    elim way [
      | inl (eo, eb) ↦ found_again pg other back u v eo eb old c cs some_back fc have
      | inr (eo, eb) ↦
          found_again pg other back v u eo eb old c cs some_back fc (have_swapped u v old have)
    ]
