-- ===== src/Session/Kicking.antt =====
-- `Revoke` and `RevokeAllOthers`: who may, and what then happens.
use bully.Prelude.{
  All, Bool, List, String, [], ap, arith, false, inl, inr, map, nat_beq, not, refl, some, sym, ℕ,
  ◌&&◌, ◌+◌, ◌||◌, ◌∙◌, ◌∷◌, ◌≡◌, ◌≤◌, ◌⊎◌,
}
use bully.Db.{
  Call, DbM, Reply, Uuids, World, first_row, ok, pure, raise, select, session_too_new, statement,
  ◌>>=◌,
}
use bully.Db.Calls.{
  Reply-cases, Unchanged, bind_err, bind_ok, statement_ok, unchanged, with_uuid_ok,
}
use bully.Db.Moves.{
  Moves, Moves-bind, Moves-if, Moves-pure, Moves-raise, Moves-statement, with_uuid-moves,
}
use bully.Db.Rows.{select-update_where_out, update_where-done}
use bully.Session.{is_null, is_session, revoke_at}
use bully.Session.Revoking.{
  age_check, assert_can_kick, min_age_to_kick, revoke, revoke_all_others, revoke_others,
  revoke_target, select_created_at,
}
use bully.Tables.{Db, SessionRow}

-- The acting session is known and at least a day old.
abbrev pub MayKick : Uuids → ℕ → String → Db → Type 0
MayKick pg clock acting db =
    (s : ℕ) × (r : SessionRow) × (rest : List SessionRow) × (pg.parse acting ≡ some s)
    × (select (λ r. nat_beq r.id s) db.sessions ≡ r ∷ rest)
    × (r.created_at + min_age_to_kick ≤ clock)

first_created :
    (selected : List SessionRow) (t : ℕ)
    → first_row (map (λ r. r.created_at) selected) ≡ ok t
    → (r : SessionRow) × (rest : List SessionRow) × (selected ≡ r ∷ rest) × (r.created_at ≡ t)
unfolding first_row
first_created [] t h = cc
first_created (r ∷ rest) t h = (r, rest, refl, ground arith)

old_enough :
    (clock t : ℕ) (r : SessionRow) (w : World)
    → r.created_at ≡ t
    → (age_check clock t w).0 ≡ ok tt
    → r.created_at + min_age_to_kick ≤ clock
unfolding age_check raise pure
old_enough clock t r w e h = ground arith

module _ (pg : Uuids) (clock : ℕ) (acting : String) where
  guard_reads : Moves Unchanged (assert_can_kick pg clock acting)
  unfolding assert_can_kick
  guard_reads =
      Moves-bind unchanged _ _
        (Moves-statement unchanged _ λ c db. with_uuid-moves unchanged pg acting db _ λ s. refl)
        λ created_at.
          Moves-if unchanged _ _ _ (Moves-raise unchanged session_too_new) (Moves-pure unchanged tt)

  guard_ok :
      (w : World) → (assert_can_kick pg clock acting w).0 ≡ ok tt → MayKick pg clock acting w.db
  unfolding assert_can_kick
  guard_ok w h =
      let (t, h1, h2, same) = bind_ok (statement (select_created_at pg acting)) _ w tt h in
      let (c, cs, calls, fc, hc, after) = statement_ok _ w t h1 in
      let (s, es, hs, same_s) = with_uuid_ok pg acting w.db _ t hc in
      let (r, rest, sel, created) = first_created _ t hs in
      (s, r, rest, es, sel, old_enough clock t r _ created h2)

  -- A program behind the guard.
  guarded :
      (m : DbM (Unit {0})) (w : World)
      → let p = assert_can_kick pg clock acting >>= λ _. m in
        ((p w).1.db ≡ w.db) ⊎ MayKick pg clock acting w.db
  guarded m w = elim (Reply-cases (assert_can_kick pg clock acting w).0) [
    | inl (a, e) ↦ inr (guard_ok w e)
    | inr (x, e) ↦ inl (ap (λ r. r.1.db) (bind_err _ _ w x e) ∙ guard_reads.moves w)
  ]

-- `Revoke` and `RevokeAllOthers` change the tables only for an acting session that the tables know and
-- that is at least 24 hours old, whatever else happens.
pub kicking_needs_age :
    (pg : Uuids) (clock : ℕ) (user_id acting target : String) (w : World)
    → (((revoke pg clock user_id acting target w).1.db ≡ w.db) ⊎ MayKick pg clock acting w.db)
      × (((revoke_all_others pg clock user_id acting w).1.db ≡ w.db) ⊎ MayKick pg clock acting w.db)
unfolding revoke revoke_all_others
kicking_needs_age pg clock user_id acting target w =
    (guarded pg clock acting _ w, guarded pg clock acting _ w)

-- What a statement behind the guard does, if all is well.
guarded_ok :
    (pg : Uuids) (clock : ℕ) (acting : String) (stmt : Call → Db → Reply (Unit {0}) × Db)
    (w : World)
    → let p = assert_can_kick pg clock acting >>= λ _. statement stmt in
      (p w).0 ≡ ok tt → (c : Call) × ((stmt c w.db).0 ≡ ok tt) × ((p w).1.db ≡ (stmt c w.db).1)
guarded_ok pg clock acting stmt w h =
    let (a, h1, h2, same) = bind_ok (assert_can_kick pg clock acting) _ w tt h in
    let (c, cs, calls, fc, hc, after) = statement_ok stmt _ tt h2 in
    let reads = (guard_reads pg clock acting).moves w in
    (
      c,
      ap (λ db. (stmt c db).0) (sym reads) ∙ hc,
      ap (λ r. r.1.db) same ∙ ap (λ x. x.db) after ∙ ap (λ db. (stmt c db).1) reads,
    )

-- Another session of the user that is not revoked.
abbrev pub is_other : ℕ → ℕ → SessionRow → Bool
is_other u s r = nat_beq r.user_id u && not (nat_beq r.id s) && is_null r.revoked_at

-- The rows that `RevokeAllOthers` has no business with.
abbrev pub is_spared : ℕ → ℕ → SessionRow → Bool
is_spared u s r = not (nat_beq r.user_id u) || nat_beq r.id s

-- After `RevokeAllOthers` has answered without error, no session of the user but the acting one is
-- unrevoked, and the acting one and those of the other users are as they were.
pub revoke_all_others-done :
    (pg : Uuids) (clock : ℕ) (user_id acting : String) (w : World)
    → (revoke_all_others pg clock user_id acting w).0 ≡ ok tt
    → let after = (revoke_all_others pg clock user_id acting w).1.db.sessions in
      (u s : ℕ) × (pg.parse user_id ≡ some u)
      × (pg.parse acting ≡ some s)
      × All (λ r. is_other u s r ≡ false) after
      × (select (is_spared u s) after ≡ select (is_spared u s) w.db.sessions)
unfolding revoke_all_others revoke_others
revoke_all_others-done pg clock user_id acting w h =
    let (c, hc, after) = guarded_ok pg clock acting (revoke_others pg user_id acting) w h in
    let (u, eu, hu, same_u) = with_uuid_ok pg user_id w.db _ tt hc in
    let (s, es, hs, same_s) = with_uuid_ok pg acting w.db _ tt hu in
    let rows = ap (λ db. db.sessions) (after ∙ ap (λ r. r.1) (same_u ∙ same_s)) in
    (
      u,
      s,
      eu,
      es,
      rw rows
          (update_where-done (is_other u s) (revoke_at c.now) w.db.sessions (λ r. ground arith)),
      rw rows (
          select-update_where_out (is_spared u s) (is_other u s) (revoke_at c.now) w.db.sessions
            (λ r h. ground arith)),
    )

-- After `Revoke` has answered without error, the user's session of the given id is revoked, and every
-- other row is as it was. A session of another user is not touched.
pub revoke-done :
    (pg : Uuids) (clock : ℕ) (user_id acting target : String) (w : World)
    → (revoke pg clock user_id acting target w).0 ≡ ok tt
    → let after = (revoke pg clock user_id acting target w).1.db.sessions in
      (u t : ℕ) × (pg.parse user_id ≡ some u)
      × (pg.parse target ≡ some t)
      × All (λ r. (is_session t u r && is_null r.revoked_at) ≡ false) after
      × (select (λ r. not (is_session t u r)) after
          ≡ select (λ r. not (is_session t u r)) w.db.sessions)
unfolding revoke revoke_target
revoke-done pg clock user_id acting target w h =
    let (c, hc, after) = guarded_ok pg clock acting (revoke_target pg user_id target) w h in
    let (t, et, ht, same_t) = with_uuid_ok pg target w.db _ tt hc in
    let (u, eu, hu, same_u) = with_uuid_ok pg user_id w.db _ tt ht in
    let rows = ap (λ db. db.sessions) (after ∙ ap (λ r. r.1) (same_t ∙ same_u)) in
    (
      u,
      t,
      eu,
      et,
      rw rows (
          update_where-done (λ r. is_session t u r && is_null r.revoked_at) (revoke_at c.now)
            w.db.sessions (λ r. ground arith)),
      rw rows (
          select-update_where_out (λ r. not (is_session t u r))
            (λ r. is_session t u r && is_null r.revoked_at) (revoke_at c.now) w.db.sessions
            (λ r h. ground arith)),
    )
