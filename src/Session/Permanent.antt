-- ===== src/Session/Permanent.antt =====
-- What the operations of session.go may do to the rows of `sessions`.
use bully.Prelude.{String, arith, ℕ}
use bully.Db.{Uuids, World, invalid_policy, session_too_new, statement}
use bully.Db.Moves.{
  Moves, Moves-bind, Moves-if, Moves-pure, Moves-raise, Moves-recover, Moves-statement, if-moves,
  with_uuid-moves,
}
use bully.Prelude.Int.{ℤ}
use bully.Session.{
  create, get_policy, insert_session, is_valid, is_valid_answer, list, revoke_at, select_sessions,
  set_policy, sweep_inactive, sweep_rows, touch,
}
use bully.Session.Revoking.{assert_can_kick, revoke, revoke_all_others}
use bully.Session.Rows.{
  Evolves, Evolves-append, Evolves-refl, Evolves-update_where, EvolvesDb, RowStep-refl,
  RowStep-revoke_at, evolution,
}

-- The operations of the handler, with their arguments.
pub data Op : Type 0 where
  op_create : String → String → String → Op
  op_is_valid op_list : String → String → Op
  op_get_policy : String → Op
  op_set_policy : String → ℤ → Op
  op_revoke : ℕ → String → String → String → Op
  op_revoke_all_others : ℕ → String → String → Op

-- What an operation does to the world, its answer apart.
unfoldable pub perform : Uuids → Op → World → World
perform pg (op_create u d p) w = (create pg u d p w).1
perform pg (op_is_valid s u) w = (is_valid pg s u w).1
perform pg (op_list u s) w = (list pg u s w).1
perform pg (op_get_policy u) w = (get_policy pg u w).1
perform pg (op_set_policy u n) w = (set_policy pg u n w).1
perform pg (op_revoke clock u a t) w = (revoke pg clock u a t w).1
perform pg (op_revoke_all_others clock u a) w = (revoke_all_others pg clock u a w).1

module _ (pg : Uuids) where
  sweep-Moves : (u : String) → Moves EvolvesDb (sweep_inactive pg u)
  unfolding sweep_inactive sweep_rows
  sweep-Moves u = Moves-statement evolution _ λ c db. with_uuid-moves evolution pg u db _ λ uid.
      Evolves-update_where _ (revoke_at c.now) db.sessions
        λ r h. RowStep-revoke_at c.now r (ground arith)

  touch-Moves : (s u : String) → Moves EvolvesDb (statement (touch pg s u))
  unfolding touch
  touch-Moves s u = Moves-statement evolution _ λ c db. with_uuid-moves evolution pg s db _ λ sid.
      with_uuid-moves evolution pg u db _ λ uid.
        Evolves-update_where _ (λ r. record r { last_seen_at = c.now }) db.sessions
          λ r h.
            let r' = RowStep-refl r in
            record {
              id = r'.id;
              user_id = r'.user_id;
              created_at = r'.created_at;
              revoked_at = r'.revoked_at;
            }

  create-Moves : (u d p : String) → Moves EvolvesDb (create pg u d p)
  unfolding create insert_session
  create-Moves u d p = Moves-statement evolution _ λ c db.
      with_uuid-moves evolution pg u db _
        λ uid. if-moves evolution db _ _ _ (Evolves-refl db.sessions) (Evolves-append db.sessions _)

  is_valid-Moves : (s u : String) → Moves EvolvesDb (is_valid pg s u)
  unfolding is_valid
  is_valid-Moves s u =
      Moves-bind evolution _ _ (sweep-Moves u)
        λ _. Moves-recover evolution is_valid_answer _ (touch-Moves s u)

  list-Moves : (u s : String) → Moves EvolvesDb (list pg u s)
  unfolding list select_sessions
  list-Moves u s = Moves-bind evolution _ _ (sweep-Moves u) λ _.
      Moves-bind evolution _ _
        (Moves-statement evolution _
          λ c db. with_uuid-moves evolution pg u db _ λ uid. Evolves-refl db.sessions)
        λ rows. Moves-pure evolution _

  get_policy-Moves : (u : String) → Moves EvolvesDb (get_policy pg u)
  unfolding get_policy
  get_policy-Moves u =
      Moves-statement evolution _
        λ c db. with_uuid-moves evolution pg u db _ λ uid. Evolves-refl db.sessions

  set_policy-Moves : (u : String) (n : ℤ) → Moves EvolvesDb (set_policy pg u n)
  unfolding set_policy
  set_policy-Moves u n = Moves-if evolution _ _ _ (Moves-raise evolution invalid_policy) (
      Moves-statement evolution _
        λ c db. with_uuid-moves evolution pg u db _ λ uid. Evolves-refl db.sessions)

  assert_can_kick-Moves : (clock : ℕ) (a : String) → Moves EvolvesDb (assert_can_kick pg clock a)
  unfolding assert_can_kick
  assert_can_kick-Moves clock a =
      Moves-bind evolution _ _
        (Moves-statement evolution _
          λ c db. with_uuid-moves evolution pg a db _ λ uid. Evolves-refl db.sessions)
        λ created_at.
          Moves-if evolution _ _ _ (Moves-raise evolution session_too_new) (Moves-pure evolution tt)

  revoke-Moves : (clock : ℕ) (u a t : String) → Moves EvolvesDb (revoke pg clock u a t)
  unfolding revoke
  revoke-Moves clock u a t = Moves-bind evolution _ _ (assert_can_kick-Moves clock a) λ _.
      Moves-statement evolution _ λ c db. with_uuid-moves evolution pg t db _ λ sid.
        with_uuid-moves evolution pg u db _ λ uid.
          Evolves-update_where _ (revoke_at c.now) db.sessions
            λ r h. RowStep-revoke_at c.now r (ground arith)

  revoke_all_others-Moves :
      (clock : ℕ) (u a : String) → Moves EvolvesDb (revoke_all_others pg clock u a)
  unfolding revoke_all_others
  revoke_all_others-Moves clock u a = Moves-bind evolution _ _ (assert_can_kick-Moves clock a) λ _.
      Moves-statement evolution _ λ c db. with_uuid-moves evolution pg u db _ λ uid.
        with_uuid-moves evolution pg a db _ λ sid.
          Evolves-update_where _ (revoke_at c.now) db.sessions
            λ r h. RowStep-revoke_at c.now r (ground arith)

  -- Whatever the operation, its arguments, the path that it takes and the fate of its calls: every row
  -- of `sessions` stays, with its id, its user and its time of creation, and a row that was revoked is
  -- revoked still, since the same instant.
  pub perform-Evolves : (op : Op) (w : World) → Evolves w.db.sessions (perform pg op w).db.sessions
  unfolding perform
  perform-Evolves (op_create u d p) w = (create-Moves u d p).moves w
  perform-Evolves (op_is_valid s u) w = (is_valid-Moves s u).moves w
  perform-Evolves (op_list u s) w = (list-Moves u s).moves w
  perform-Evolves (op_get_policy u) w = (get_policy-Moves u).moves w
  perform-Evolves (op_set_policy u n) w = (set_policy-Moves u n).moves w
  perform-Evolves (op_revoke clock u a t) w = (revoke-Moves clock u a t).moves w
  perform-Evolves (op_revoke_all_others clock u a) w = (revoke_all_others-Moves clock u a).moves w
