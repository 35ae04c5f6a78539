-- ===== src/Convo/Listing/Visible.antt =====
-- What `List` and `Members` show, and to whom.
use mathlib.Core.List.{Perm}
use mathlib.Core.List.Perm
use bully.Prelude.{
  All, Bool, Bool-cases, List, Option, String, [], ap, arith, false, if◌then◌else◌, inl, inr, leb,
  leb→le, length, map, nat_beq, none, refl, some, subst, sym, true, ℕ, ◌++◌, ◌∙◌, ◌∷◌, ◌≡◌, ◌≤◌,
}
use bully.Auth.{Claims}
use bully.Convo.{is_member, is_member_row, member_ids, select_exists, select_members}
use bully.Convo.Listing.{
  ConversationListItem, answer_rows, insert_by_created, item_of, joined, list_conversations,
  list_members, members_allowed, order_by_created, select_conversations, shown,
}
use bully.Db.{Call, Reply, Uuids, World, any_row, arrived, err, ok, select}
use bully.Db.Calls.{reply_inj, statement_ok, with_uuid-some, with_uuid_ok}
use bully.Tables.{ConversationRow, Db, MemberRow}

-- Oldest first.
abbrev pub IsOldestFirst : List ConversationRow → Type 0
IsOldestFirst [] = Unit
IsOldestFirst (r ∷ rows) = All (λ q. r.created_at ≤ q.created_at) rows × IsOldestFirst rows

All-older :
    (a b : ℕ) (rows : List ConversationRow)
    → a ≤ b
    → All (λ q. b ≤ q.created_at) rows
    → All (λ q. a ≤ q.created_at) rows
All-older a b [] h k = tt
All-older a b (r ∷ rows) h k = (omega arith, All-older a b rows h k.1)

All-insert_by :
    (bound : ℕ) (s : ConversationRow) (rows : List ConversationRow)
    → bound ≤ s.created_at
    → All (λ q. bound ≤ q.created_at) rows
    → All (λ q. bound ≤ q.created_at) (insert_by_created s rows)
unfolding insert_by_created
All-insert_by bound s [] h k = (h, tt)
All-insert_by bound s (r ∷ rows) h k = ground (arith, All-insert_by bound s rows h k.1)

insert-IsOldestFirst :
    (s : ConversationRow) (rows : List ConversationRow)
    → IsOldestFirst rows
    → IsOldestFirst (insert_by_created s rows)
unfolding insert_by_created
insert-IsOldestFirst s [] h = (tt, tt)
insert-IsOldestFirst s (r ∷ rows) h = elim (Bool-cases (leb s.created_at r.created_at)) [
  | inl older ↦
      rw older
        ((leb→le _ _ older, All-older s.created_at r.created_at rows (leb→le _ _ older) h.0), h)
  | inr newer ↦
      rw newer
        (All-insert_by r.created_at s rows (ground arith) h.0, insert-IsOldestFirst s rows h.1)
]

order-IsOldestFirst : (rows : List ConversationRow) → IsOldestFirst (order_by_created rows)
unfolding order_by_created
order-IsOldestFirst [] = tt
order-IsOldestFirst (r ∷ rows) =
    insert-IsOldestFirst r (order_by_created rows) (order-IsOldestFirst rows)

insert_perm :
    (s : ConversationRow) (rows : List ConversationRow) → Perm (insert_by_created s rows) (s ∷ rows)
unfolding insert_by_created
insert_perm s [] = Perm.refl (s ∷ [])
insert_perm s (r ∷ rows) = elim (Bool-cases (leb s.created_at r.created_at)) [
  | inl older ↦ rw older (Perm.refl (s ∷ r ∷ rows))
  | inr newer ↦ rw newer (Perm.trans (Perm.cons r (insert_perm s rows)) (Perm.swap s r rows))
]

order_perm : (rows : List ConversationRow) → Perm (order_by_created rows) rows
unfolding order_by_created
order_perm [] = Perm.refl []
order_perm (r ∷ rows) =
    Perm.trans (insert_perm r (order_by_created rows)) (Perm.cons r (order_perm rows))

-- The primary key of conversation_members, for one user.
abbrev pub OnePerUser : ℕ → List MemberRow → List ConversationRow → Type 0
OnePerUser u members rows = All (λ r. length (select (is_member_row r.id u) members) ≤ 1) rows

no_more : (rows : List MemberRow) → length rows ≤ 0 → rows ≡ []
no_more [] h = refl
no_more (r ∷ rows) h = absurd (omega arith)

map_one :
    (r : ConversationRow) (test : MemberRow → Bool) (members : List MemberRow)
    → length (select test members) ≤ 1
    → map (λ m. r) (select test members) ≡ (if any_row test members then r ∷ [] else [])
unfolding select any_row
map_one r test [] h = refl
map_one r test (m ∷ members) h = elim (Bool-cases (test m)) [
  | inl hit ↦ rw (hit, no_more (select test members) (omega (arith, (rw hit at h)))) refl
  | inr miss ↦ rw miss (map_one r test members (rw miss at h))
]

-- With one row at most for a user and a conversation, the JOIN is a choice of conversations.
joined-select :
    (u : ℕ) (members : List MemberRow) (rows : List ConversationRow)
    → OnePerUser u members rows
    → joined u members rows ≡ select (λ r. any_row (is_member_row r.id u) members) rows
unfolding joined select
joined-select u members [] h = refl
joined-select u members (r ∷ rows) h =
    rw (map_one r (is_member_row r.id u) members h.0, joined-select u members rows h.1)
      (pick (any_row (is_member_row r.id u) members))
  where
    pick :
        (b : Bool)
        → (if b then r ∷ [] else []) ++ select (λ q. any_row (is_member_row q.id u) members) rows
          ≡ (if b
              then r ∷ select (λ q. any_row (is_member_row q.id u) members) rows
              else select (λ q. any_row (is_member_row q.id u) members) rows)
    pick true = refl
    pick false = refl

pub shown_inj {ℓ} : {A : Type ℓ} (a b : List A) → shown a ≡ shown b → a ≡ b
shown_inj a b h = cc

pub answer_shown {ℓ} :
    {A : Type ℓ} (r : Reply (List A)) (items : List A) → answer_rows r ≡ shown items → r ≡ ok items
unfolding answer_rows
answer_shown (ok a) items h = ap ok (shown_inj a items h)
answer_shown (err e) items h = cc

-- If the conversations have one row of the user each at most, what `List` shows to the user is each
-- conversation that has one, once, oldest first, as the tables say, and it changes nothing; if the
-- connection of its first call breaks while the rows are read, it is the beginning of that list, up to
-- the row where it breaks.
pub list_conversations_sound :
    (pg : Uuids) (claims : Claims) (w : World) (u : ℕ) (items : List ConversationListItem)
    → pg.parse claims.user_id ≡ some u
    → OnePerUser u w.db.members w.db.conversations
    → (list_conversations pg (some claims) w).0 ≡ shown items
    → (c : Call) × (cs : List Call) × (rows : List ConversationRow) × (w.calls ≡ c ∷ cs)
      × (items ≡ map (item_of pg w.db.groups) (arrived c.break_after rows))
      × IsOldestFirst rows
      × Perm rows (select (λ r. any_row (is_member_row r.id u) w.db.members) w.db.conversations)
      × ((list_conversations pg (some claims) w).1.db ≡ w.db)
unfolding list_conversations select_conversations
list_conversations_sound pg claims w u items eu one h =
    let (c, cs, calls, fc, row, after) = statement_ok _ w items (answer_shown _ items h) in
    let names = with_uuid-some pg claims.user_id w.db _ u eu in
    let mine = joined u w.db.members w.db.conversations in
    (
      c,
      cs,
      order_by_created mine,
      calls,
      sym (reply_inj _ _ (rw names at row)),
      order-IsOldestFirst mine,
      subst (Perm (order_by_created mine)) (joined-select u w.db.members w.db.conversations one)
          (order_perm mine),
      ap (λ x. x.db) after ∙ ap (λ r. r.1) names,
    )

allowed_ok :
    (pg : Uuids) (conversation_id : String) (r : Reply Bool) (w : World) (ids : List String)
    → (members_allowed pg conversation_id r w).0 ≡ shown ids
    → (r ≡ ok true)
      × ((member_ids pg conversation_id w).0 ≡ ok ids)
      × ((members_allowed pg conversation_id r w).1 ≡ (member_ids pg conversation_id w).1)
unfolding members_allowed
allowed_ok pg conversation_id (err e) w ids h = cc
allowed_ok pg conversation_id (ok false) w ids h = cc
allowed_ok pg conversation_id (ok true) w ids h = (refl, answer_shown _ ids h, refl)

-- `Members` shows the users of a conversation to nobody but its members: if it answers with a list, the
-- user of the claims has a row of that conversation, and the list has the users of all its rows, or,
-- if the connection of its second call breaks while they are read, those before the row where it
-- breaks; nothing changes.
pub list_members_guarded :
    (pg : Uuids) (claims : Option Claims) (conversation_id : String) (w : World) (ids : List String)
    → (list_members pg claims conversation_id w).0 ≡ shown ids
    → (c : Claims) × (u k : ℕ) × (first second : Call) × (cs : List Call) × (claims ≡ some c)
      × (w.calls ≡ first ∷ second ∷ cs)
      × (pg.parse c.user_id ≡ some u)
      × (pg.parse conversation_id ≡ some k)
      × (any_row (is_member_row k u) w.db.members ≡ true)
      × (ids
          ≡ arrived second.break_after (
              map
                (λ r. pg.print r.user_id)
                (select (λ r. nat_beq r.conversation_id k) w.db.members)))
      × ((list_members pg claims conversation_id w).1.db ≡ w.db)
unfolding list_members is_member member_ids select_exists select_members
list_members_guarded pg none conversation_id w ids h = cc
list_members_guarded pg (some c) conversation_id w ids h =
    let (asked, counted, end) = allowed_ok pg conversation_id _ _ ids h in
    let (c1, cs1, calls1, f1, row1, after1) =
      statement_ok (select_exists pg conversation_id c.user_id) w true asked in
    let (k, ek, hk, same_k) = with_uuid_ok pg conversation_id w.db _ true row1 in
    let (u, eu, hu, same_u) = with_uuid_ok pg c.user_id w.db _ true hk in
    let (c2, cs2, calls2, f2, row2, after2) =
      statement_ok (select_members pg conversation_id) _ ids counted in
    let same_db = ap (λ x. x.db) after1 ∙ ap (λ r. r.1) (same_k ∙ same_u) in
    let names = with_uuid-some pg conversation_id _ _ k ek in
    (
      c,
      u,
      k,
      c1,
      c2,
      cs2,
      refl,
      calls1 ∙ ap (◌∷◌ c1) (sym (ap (λ x. x.calls) after1) ∙ calls2),
      eu,
      ek,
      reply_inj _ _ hu,
      sym (reply_inj _ _ (rw names at row2))
          ∙ ap
              (λ (d : Db). arrived c2.break_after (
                map (λ r. pg.print r.user_id)
                  (select (λ r. nat_beq r.conversation_id k) d.members)))
              same_db,
      ap (λ x. x.db) (end ∙ after2) ∙ ap (λ r. r.1) names ∙ same_db,
    )
