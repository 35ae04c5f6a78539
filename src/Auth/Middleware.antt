-- ===== src/Auth/Middleware.antt =====
-- Who gets past the middleware.
use Prim.Native.String.{slice, len}
use text.Mathlib.Text.{starts_with}
use bully.Prelude.{
  Bool, Bool-cases, List, Option, String, ap, arith, false, inl, inr, none, refl, some, subst, true,
  ℕ, ◌∷◌, ◌≡◌,
}
use bully.Auth.{Claims, Tokens, check_token, check_validity, middleware, passed}
use bully.Auth.Account.Trip.{bearer}
use bully.Db.{Call, Reply, Uuids, World, done, err, ok}
use bully.Session.{is_valid}
use bully.Session.Validity.{is_valid_sound, verdict}

check_validity_passed :
    (claims cl : Claims) (r : Reply Bool)
    → check_validity cl r ≡ passed claims
    → (r ≡ ok true) × (cl ≡ claims)
unfolding check_validity
check_validity_passed claims cl (err e) h = cc
check_validity_passed claims cl (ok false) h = cc
check_validity_passed claims cl (ok true) h = (refl, ground arith)

check_token_passed :
    (pg : Uuids) (parsed : Option Claims) (w : World) (claims : Claims)
    → (check_token pg parsed w).0 ≡ passed claims
    → (parsed ≡ some claims) × ((is_valid pg claims.session_id claims.user_id w).0 ≡ ok true)
unfolding check_token
check_token_passed pg none w claims h = cc
check_token_passed pg (some cl) w claims h =
    let (valid, same) = check_validity_passed claims cl _ h in
    (
      ap some same,
      subst (λ (c : Claims). (is_valid pg c.session_id c.user_id w).0 ≡ ok true) same valid,
    )

-- The middleware lets a request through, with some claims, only if the header is `Bearer ` and a token
-- that parses to these claims, both of its calls were done, and at the time of the first the tables had
-- the session of the claims as their user's, not revoked and not inactive.
pub middleware_sound :
    (pg : Uuids) (parse_token : Tokens) (hdr : String) (w : World) (claims : Claims)
    → (middleware pg parse_token hdr w).0 ≡ passed claims
    → (starts_with hdr "Bearer " ≡ true)
      × (parse_token (slice hdr (len "Bearer ") (len hdr)) ≡ some claims)
      × (s u : ℕ) × (c d : Call) × (cs : List Call) × (pg.parse claims.session_id ≡ some s)
      × (pg.parse claims.user_id ≡ some u)
      × (w.calls ≡ c ∷ d ∷ cs)
      × (c.fate ≡ done)
      × (d.fate ≡ done)
      × (verdict s u c.now w.db ≡ true)
unfolding middleware
middleware_sound pg parse_token hdr w claims h = elim (Bool-cases (starts_with hdr "Bearer ")) [
  | inl bearer ↦
      let (parsed, valid) = check_token_passed pg _ w claims (rw bearer at h) in
      let (s, u, c, d, cs, es, eu, calls, fc, fd, v) =
        is_valid_sound pg claims.session_id claims.user_id w valid in
      (bearer, parsed, s, u, c, d, cs, es, eu, calls, fc, fd, v)
  | inr other ↦ cc (rw other at h)
]
