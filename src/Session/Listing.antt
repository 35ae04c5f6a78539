-- ===== src/Session/Listing.antt =====
-- What `List` shows.
use mathlib.Core.List.{Perm}
use mathlib.Core.List.Perm
use bully.Prelude.{
  All, Bool, Bool-cases, List, Option, String, [], ap, arith, inl, inr, leb, leb→le, map, nat_beq,
  refl, some, subst, sym, ℕ, ◌&&◌, ◌∙◌, ◌∷◌, ◌≡◌, ◌≤◌,
}
use bully.Db.{Call, Uuids, World, arrived, ok, pure, select, statement, update_where}
use bully.Db.Calls.{bind_ok, reply_inj, statement_ok, with_uuid_ok}
use bully.Session.{
  Info, inactivity_of, info_of, insert_by_last_seen, is_listed, list, order_by_last_seen,
  select_sessions, sweep_inactive, sweep_rows,
}
use bully.Session.Validity.{is_live}
use bully.Tables.{Db, SessionRow}

-- Most recently seen first.
abbrev pub IsRecentFirst : List SessionRow → Type 0
IsRecentFirst [] = Unit
IsRecentFirst (r ∷ rows) = All (λ q. q.last_seen_at ≤ r.last_seen_at) rows × IsRecentFirst rows

All-mono :
    (a b : ℕ) (rows : List SessionRow)
    → a ≤ b
    → All (λ q. q.last_seen_at ≤ a) rows
    → All (λ q. q.last_seen_at ≤ b) rows
All-mono a b [] h k = tt
All-mono a b (r ∷ rows) h k = (omega arith, All-mono a b rows h k.1)

All-insert :
    (bound : ℕ) (s : SessionRow) (rows : List SessionRow)
    → s.last_seen_at ≤ bound
    → All (λ q. q.last_seen_at ≤ bound) rows
    → All (λ q. q.last_seen_at ≤ bound) (insert_by_last_seen s rows)
unfolding insert_by_last_seen
All-insert bound s [] h k = (h, tt)
All-insert bound s (r ∷ rows) h k = ground (arith, All-insert bound s rows h k.1)

insert-IsRecentFirst :
    (s : SessionRow) (rows : List SessionRow)
    → IsRecentFirst rows
    → IsRecentFirst (insert_by_last_seen s rows)
unfolding insert_by_last_seen
insert-IsRecentFirst s [] h = (tt, tt)
insert-IsRecentFirst s (r ∷ rows) h = elim (Bool-cases (leb r.last_seen_at s.last_seen_at)) [
  | inl newer ↦
      rw newer
        ((leb→le _ _ newer, All-mono r.last_seen_at s.last_seen_at rows (leb→le _ _ newer) h.0), h)
  | inr older ↦
      rw older
        (All-insert r.last_seen_at s rows (ground arith) h.0, insert-IsRecentFirst s rows h.1)
]

order-IsRecentFirst : (rows : List SessionRow) → IsRecentFirst (order_by_last_seen rows)
unfolding order_by_last_seen
order-IsRecentFirst [] = tt
order-IsRecentFirst (r ∷ rows) =
    insert-IsRecentFirst r (order_by_last_seen rows) (order-IsRecentFirst rows)

insert-perm :
    (s : SessionRow) (rows : List SessionRow) → Perm (insert_by_last_seen s rows) (s ∷ rows)
unfolding insert_by_last_seen
insert-perm s [] = Perm.refl (s ∷ [])
insert-perm s (r ∷ rows) = elim (Bool-cases (leb r.last_seen_at s.last_seen_at)) [
  | inl newer ↦ rw newer (Perm.refl (s ∷ r ∷ rows))
  | inr older ↦ rw older (Perm.trans (Perm.cons r (insert-perm s rows)) (Perm.swap s r rows))
]

order-perm : (rows : List SessionRow) → Perm (order_by_last_seen rows) rows
unfolding order_by_last_seen
order-perm [] = Perm.refl []
order-perm (r ∷ rows) =
    Perm.trans (insert-perm r (order_by_last_seen rows)) (Perm.cons r (order-perm rows))

-- A row of the user that is neither revoked nor inactive.
abbrev pub is_users_live : ℕ → Option ℕ → ℕ → SessionRow → Bool
is_users_live u seconds now r = nat_beq r.user_id u && is_live seconds now r

same_uuid : (u v : ℕ) → some u ≡ some v → u ≡ v
same_uuid u v h = cc

listed_swept :
    (u : ℕ) (seconds : Option ℕ) (now : ℕ) (rows : List SessionRow)
    → select (is_listed u) (sweep_rows u seconds now rows)
      ≡ select (is_users_live u seconds now) rows
unfolding sweep_rows update_where select
listed_swept u seconds now [] = refl
listed_swept u seconds now (r ∷ rows) = ground (arith, listed_swept u seconds now rows)

-- What `List` answers shows, most recently seen first, each session of the user once that the tables
-- had as neither revoked nor, at the time of its first call, inactive, and marks the one that asks; if
-- the connection of its second call breaks while the rows are read, it is the beginning of that list,
-- up to the row where it breaks.
pub list_sound :
    (pg : Uuids) (user_id current : String) (w : World) (infos : List Info)
    → (list pg user_id current w).0 ≡ ok infos
    → (u : ℕ) × (a c : Call) × (cs : List Call) × (rows : List SessionRow) × (pg.parse user_id
        ≡ some u)
      × (w.calls ≡ a ∷ c ∷ cs)
      × (infos ≡ map (info_of pg current) (arrived c.break_after rows))
      × IsRecentFirst rows
      × Perm rows (select (is_users_live u (inactivity_of u w.db.users) a.now) w.db.sessions)
unfolding list select_sessions sweep_inactive pure
list_sound pg user_id current w infos h =
    let (x, h1, h2, same) = bind_ok (sweep_inactive pg user_id) _ w infos h in
    let (a, later, calls_a, fa, ha, after_a) = statement_ok _ w x h1 in
    let (v, ev, hv, same_v) = with_uuid_ok pg user_id w.db _ x ha in
    let swept = (sweep_inactive pg user_id w).1 in
    let (rows, k1, k2, same_rows) =
      bind_ok (statement (select_sessions pg user_id)) _ swept infos h2 in
    let (c, cs, calls, fc, hc, after) = statement_ok _ swept rows k1 in
    let (u, eu, hu, same_u) = with_uuid_ok pg user_id swept.db _ rows hc in
    let same_user = same_uuid v u (sym ev ∙ eu) in
    let swept_db : swept.db
        ≡ record w.db { sessions = sweep_rows v (inactivity_of v w.db.users) a.now w.db.sessions } =
      ap (λ x. x.db) after_a ∙ ap (λ r. r.1) same_v in
    let live : select (is_listed u) swept.db.sessions
        ≡ select (is_users_live u (inactivity_of u w.db.users) a.now) w.db.sessions =
      ap (λ (d : Db). select (is_listed u) d.sessions) swept_db
      ∙ ap
          (λ n.
            select (is_listed u) (sweep_rows n (inactivity_of n w.db.users) a.now w.db.sessions))
          same_user
      ∙ listed_swept u (inactivity_of u w.db.users) a.now w.db.sessions in
    let chosen = select (is_listed u) swept.db.sessions in
    let shown : arrived c.break_after (order_by_last_seen chosen) ≡ rows = reply_inj _ _ hu in
    (
      u,
      a,
      c,
      cs,
      order_by_last_seen chosen,
      eu,
      calls_a ∙ ap (◌∷◌ a) (sym (ap (λ x. x.calls) after_a) ∙ calls),
      sym (ap (map (info_of pg current)) shown ∙ reply_inj _ _ k2),
      order-IsRecentFirst chosen,
      subst (Perm (order_by_last_seen chosen)) live (order-perm chosen),
    )
