-- ===== src/Session/Policy.antt =====
-- The inactivity policy of a user.
use bully.Prelude.{
  All, Bool-cases, String, arith, inl, inr, nat_beq, refl, ℕ, ◌||◌, ◌∙◌, ◌≡◌, ◌≢◌, ◌≤◌,
}
use bully.Db.{Uuids, World, invalid_policy, session_too_new}
use bully.Db.Moves.{
  Moves, Moves-bind, Moves-if, Moves-pure, Moves-raise, Moves-recover, Moves-statement, Preorder,
  if-moves, with_uuid-moves,
}
use bully.Db.Rows.{All-update_where}
use bully.Prelude.Int.{ltb_ℤ, pos, ℤ}
use bully.Session.{
  create, get_policy, insert_session, is_valid, is_valid_answer, list, max_inactivity_seconds,
  min_inactivity_seconds, select_sessions, set_policy, sweep_inactive, touch,
}
use bully.Session.Permanent.{
  Op, op_create, op_get_policy, op_is_valid, op_list, op_revoke, op_revoke_all_others,
  op_set_policy, perform,
}
use bully.Session.Revoking.{
  assert_can_kick, revoke, revoke_all_others, revoke_others, revoke_target,
}
use bully.Tables.{Db}

abbrev pub InPolicyRange : ℕ → Type 0
InPolicyRange n = (min_inactivity_seconds ≤ n) × (n ≤ max_inactivity_seconds)

-- Every stored timeout is between an hour and 365 days.
abbrev pub PoliciesInRange : Db → Type 0
PoliciesInRange db = All (λ r. InPolicyRange r.session_inactivity_seconds) db.users

abbrev KeepsPolicies : Db → Db → Type 0
KeepsPolicies a b = PoliciesInRange a → PoliciesInRange b

keeps_policies : Preorder KeepsPolicies
keeps_policies = record { same = λ a h. h; then_so = λ a b c f g h. g (f h) }

-- The relation of the tables that leaves the users alone.
abbrev SameUsers : Db → Db → Type 0
SameUsers a b = b.users ≡ a.users

module _ (pg : Uuids) where
  same_users : Preorder SameUsers
  same_users = record { same = λ a. refl; then_so = λ a b c h k. k ∙ h }

  sweep-users : (u : String) → Moves SameUsers (sweep_inactive pg u)
  unfolding sweep_inactive
  sweep-users u =
      Moves-statement same_users _ λ c db. with_uuid-moves same_users pg u db _ λ uid. refl

  guard-users : (clock : ℕ) (a : String) → Moves SameUsers (assert_can_kick pg clock a)
  unfolding assert_can_kick
  guard-users clock a =
      Moves-bind same_users _ _
        (Moves-statement same_users _ λ c db. with_uuid-moves same_users pg a db _ λ s. refl)
        λ created_at.
          Moves-if same_users _ _ _ (Moves-raise same_users session_too_new)
            (Moves-pure same_users tt)

  pub users-perform :
      (op : Op) (w : World)
      → ((u : String) (n : ℤ) → op ≢ op_set_policy u n)
      → (perform pg op w).db.users ≡ w.db.users
  unfolding perform create insert_session is_valid touch list select_sessions get_policy revoke
      revoke_all_others revoke_others revoke_target
  users-perform (op_create u d p) w h =
      (Moves-statement same_users _ λ c db.
          with_uuid-moves same_users pg u db _ λ uid. if-moves same_users db _ _ _ refl refl).moves
        w
  users-perform (op_is_valid s u) w h =
      (Moves-bind same_users _ _ (sweep-users u) λ _. Moves-recover same_users is_valid_answer _ (
          Moves-statement same_users _ λ c db.
            with_uuid-moves same_users pg s db _
              λ sid. with_uuid-moves same_users pg u db _ λ uid. refl)).moves
        w
  users-perform (op_list u s) w h =
      (Moves-bind same_users _ _ (sweep-users u) λ _.
          Moves-bind same_users _ _
            (Moves-statement same_users _ λ c db. with_uuid-moves same_users pg u db _ λ uid. refl)
            λ rows. Moves-pure same_users _).moves
        w
  users-perform (op_get_policy u) w h =
      (Moves-statement same_users _ λ c db. with_uuid-moves same_users pg u db _ λ uid. refl).moves
        w
  users-perform (op_set_policy u n) w h = absurd (h u n refl)
  users-perform (op_revoke clock u a t) w h =
      (Moves-bind same_users _ _ (guard-users clock a) λ _. Moves-statement same_users _ λ c db.
          with_uuid-moves same_users pg t db _
            λ s. with_uuid-moves same_users pg u db _ λ uid. refl).moves
        w
  users-perform (op_revoke_all_others clock u a) w h =
      (Moves-bind same_users _ _ (guard-users clock a) λ _. Moves-statement same_users _ λ c db.
          with_uuid-moves same_users pg u db _
            λ s. with_uuid-moves same_users pg a db _ λ uid. refl).moves
        w

  policy-Moves : (u : String) (n : ℤ) → Moves KeepsPolicies (set_policy pg u n)
  unfolding set_policy
  policy-Moves u n =
      elim (Bool-cases
        (ltb_ℤ n (pos min_inactivity_seconds) || ltb_ℤ (pos max_inactivity_seconds) n)) [
          | inl out ↦ rw out (Moves-raise keeps_policies invalid_policy)
          | inr fits ↦ rw fits (
              Moves-statement keeps_policies _ λ c db.
                with_uuid-moves keeps_policies pg u db _ λ uid h.
                  All-update_where _ (λ r. nat_beq r.id uid) _ db.users (λ r old. ground arith) h)
        ]

  others-keep :
      (op : Op) (w : World)
      → ((u : String) (n : ℤ) → op ≢ op_set_policy u n)
      → PoliciesInRange w.db
      → PoliciesInRange (perform pg op w).db
  others-keep op w other h = rw (users-perform op w other) h

  -- If each user's timeout is between an hour and 365 days, it is so after any operation of
  -- session.go, on every path.
  pub perform-PoliciesInRange :
      (op : Op) (w : World) → PoliciesInRange w.db → PoliciesInRange (perform pg op w).db
  perform-PoliciesInRange (op_create u d p) w = others-keep (op_create u d p) w (λ u n e. cc)
  perform-PoliciesInRange (op_is_valid s u) w = others-keep (op_is_valid s u) w (λ u n e. cc)
  perform-PoliciesInRange (op_list u s) w = others-keep (op_list u s) w (λ u n e. cc)
  perform-PoliciesInRange (op_get_policy u) w = others-keep (op_get_policy u) w (λ u n e. cc)
  perform-PoliciesInRange (op_set_policy u n) w = unfold perform in (policy-Moves u n).moves w
  perform-PoliciesInRange (op_revoke clock u a t) w =
      others-keep (op_revoke clock u a t) w (λ u n e. cc)
  perform-PoliciesInRange (op_revoke_all_others clock u a) w =
      others-keep (op_revoke_all_others clock u a) w (λ u n e. cc)
