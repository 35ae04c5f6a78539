-- ===== src/Session/Http/Answers.antt =====
-- What the statuses of the routes say.
use bully.Prelude.{
  All, Bool, Bool-cases, List, Option, String, [], ap, arith, false, inl, inr, nat_beq, none, not,
  refl, some, true, ℕ, ◌&&◌, ◌||◌, ◌∷◌, ◌≡◌,
}
use bully.Auth.{Claims}
use bully.Db.{
  Reply, Uuids, World, db_failed, err, invalid_policy, no_rows, ok, raise, select, session_too_new,
  update_where,
}
use bully.Db.Calls.{statement_ok, with_uuid_ok}
use bully.Prelude.Int.{ltb_ℤ, negsuc, pos, ℤ}
use bully.Session.{
  is_null, is_session, max_inactivity_seconds, min_inactivity_seconds, set_policy, update_policy,
}
use bully.Session.Http.{
  answer_kick, answer_policy, change_policy, policy_http, revoke_all_http, revoke_http,
}
use bully.Session.Kicking.{is_other, is_spared, revoke-done, revoke_all_others-done}
use bully.Session.Policy.{InPolicyRange}
use bully.Tables.{UserRow}

answer_kick_done : (r : Reply (Unit {0})) → (answer_kick r).status ≡ 204 → r ≡ ok tt
unfolding answer_kick
answer_kick_done (ok t) h = refl
answer_kick_done (err no_rows) h = absurd (omega arith)
answer_kick_done (err db_failed) h = absurd (omega arith)
answer_kick_done (err session_too_new) h = absurd (omega arith)
answer_kick_done (err invalid_policy) h = absurd (omega arith)

-- `RevokeHTTP` answers 204 only to a request with claims, and then the session of the route is revoked
-- if it is one of the user of the claims, and every other row is as it was.
pub revoke_http-done :
    (pg : Uuids) (clock : ℕ) (claims : Option Claims) (target : String) (w : World)
    → (revoke_http pg clock claims target w).0.status ≡ 204
    → let after = (revoke_http pg clock claims target w).1.db.sessions in
      (c : Claims) × (u t : ℕ) × (claims ≡ some c)
      × (pg.parse c.user_id ≡ some u)
      × (pg.parse target ≡ some t)
      × All (λ r. (is_session t u r && is_null r.revoked_at) ≡ false) after
      × (select (λ r. not (is_session t u r)) after
          ≡ select (λ r. not (is_session t u r)) w.db.sessions)
unfolding revoke_http
revoke_http-done pg clock none target w h = absurd (omega arith)
revoke_http-done pg clock (some c) target w h =
    let (u, t, eu, et, revoked, others) =
      revoke-done pg clock c.user_id c.session_id target w (answer_kick_done _ h) in
    (c, u, t, refl, eu, et, revoked, others)

-- `RevokeAllHTTP` answers 204 only to a request with claims, and then no session of their user but the
-- one of the claims is unrevoked, and that one and those of the other users are as they were.
pub revoke_all_http-done :
    (pg : Uuids) (clock : ℕ) (claims : Option Claims) (w : World)
    → (revoke_all_http pg clock claims w).0.status ≡ 204
    → let after = (revoke_all_http pg clock claims w).1.db.sessions in
      (c : Claims) × (u s : ℕ) × (claims ≡ some c)
      × (pg.parse c.user_id ≡ some u)
      × (pg.parse c.session_id ≡ some s)
      × All (λ r. is_other u s r ≡ false) after
      × (select (is_spared u s) after ≡ select (is_spared u s) w.db.sessions)
unfolding revoke_all_http
revoke_all_http-done pg clock none w h = absurd (omega arith)
revoke_all_http-done pg clock (some c) w h =
    let (u, s, eu, es, revoked, others) =
      revoke_all_others-done pg clock c.user_id c.session_id w (answer_kick_done _ h) in
    (c, u, s, refl, eu, es, revoked, others)

answer_policy_done : (r : Reply (Unit {0})) → (answer_policy r).status ≡ 204 → r ≡ ok tt
unfolding answer_policy
answer_policy_done (ok t) h = refl
answer_policy_done (err no_rows) h = absurd (omega arith)
answer_policy_done (err db_failed) h = absurd (omega arith)
answer_policy_done (err session_too_new) h = absurd (omega arith)
answer_policy_done (err invalid_policy) h = absurd (omega arith)

-- The rows of the user have this timeout.
abbrev pub has_policy : ℕ → ℕ → UserRow → Bool
has_policy u n r = not (nat_beq r.id u) || nat_beq r.session_inactivity_seconds n

All-updated :
    (u n : ℕ) (rows : List UserRow)
    → All
        (λ r. has_policy u n r ≡ true)
        (update_where (λ r. nat_beq r.id u) (λ r. record r { session_inactivity_seconds = n }) rows)
unfolding update_where
All-updated u n [] = tt
All-updated u n (r ∷ rows) = (ground arith, All-updated u n rows)

-- A timeout that `SetPolicy` accepts.
set_policy_done :
    (pg : Uuids) (user_id : String) (seconds : ℤ) (w : World)
    → (set_policy pg user_id seconds w).0 ≡ ok tt
    → (n u : ℕ) × (seconds ≡ pos n)
      × (pg.parse user_id ≡ some u)
      × InPolicyRange n
      × All (λ r. has_policy u n r ≡ true) (set_policy pg user_id seconds w).1.db.users
unfolding set_policy update_policy raise
set_policy_done pg user_id (negsuc n) w h =
    let low : ltb_ℤ (negsuc n) (pos min_inactivity_seconds) ≡ true = ground arith in
    cc (rw low at h)
set_policy_done pg user_id (pos n) w h =
    elim (Bool-cases
      (ltb_ℤ (pos n) (pos min_inactivity_seconds) || ltb_ℤ (pos max_inactivity_seconds) (pos n))) [
        | inl out ↦ cc (rw out at h)
        | inr fits ↦
            let (c, cs, calls, fc, hc, after) =
              statement_ok (update_policy pg user_id n) w tt (rw fits at h) in
            let (u, eu, hu, same_u) = with_uuid_ok pg user_id w.db _ tt hc in
            (n, u, refl, eu, ground arith, rw (fits, after, same_u) (All-updated u n w.db.users))
      ]

-- `PolicyHTTP` answers 204 only to a request with claims whose body has a number of seconds between an
-- hour and 365 days, and then that is the timeout of the user of the claims.
pub policy_http-done :
    (pg : Uuids) (claims : Option Claims) (decoded : Option ℤ) (w : World)
    → (policy_http pg claims decoded w).0.status ≡ 204
    → (c : Claims) × (n u : ℕ) × (claims ≡ some c)
      × (decoded ≡ some (pos n))
      × (pg.parse c.user_id ≡ some u)
      × InPolicyRange n
      × All (λ r. has_policy u n r ≡ true) (policy_http pg claims decoded w).1.db.users
unfolding policy_http change_policy
policy_http-done pg none decoded w h = absurd (omega arith)
policy_http-done pg (some c) none w h = absurd (omega arith)
policy_http-done pg (some c) (some seconds) w h =
    let (n, u, same, eu, fits, rows) =
      set_policy_done pg c.user_id seconds w (answer_policy_done _ h) in
    (c, n, u, refl, ap some same, eu, fits, rows)
