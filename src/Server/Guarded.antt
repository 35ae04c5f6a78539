-- ===== src/Server/Guarded.antt =====
-- What stands behind the middleware.
use Prim.Native.String.{slice, len}
use text.Mathlib.Text.{starts_with}
use bully.Prelude.{List, String, ap, inl, inr, refl, some, true, ℕ, ◌∷◌, ◌≡◌, ◌⊎◌}
use bully.Auth.{Claims, Passage, Response, answered, middleware, passed}
use bully.Auth.Middleware.{middleware_sound}
use bully.Db.{Call, World, done}
use bully.Server.{GuardedRoute, Libraries, after_middleware, dispatch, plain, serve_guarded}
use bully.Session.Validity.{verdict}

-- The header has a token whose session is live at the time of the first call, and both calls of
-- `IsValid` are done.
abbrev pub IsLive : Libraries → String → World → Claims → Type 0
IsLive lib hdr w claims =
    (starts_with hdr "Bearer " ≡ true)
    × (lib.parse_token (slice hdr (len "Bearer ") (len hdr)) ≡ some claims)
    × (s u : ℕ) × (c d : Call) × (cs : List Call) × (lib.pg.parse claims.session_id ≡ some s)
    × (lib.pg.parse claims.user_id ≡ some u)
    × (w.calls ≡ c ∷ d ∷ cs)
    × (c.fate ≡ done)
    × (d.fate ≡ done)
    × (verdict s u c.now w.db ≡ true)

turned :
    (lib : Libraries) (hdr : String) (route : GuardedRoute) (w after : World) (p : Passage)
    → middleware lib.pg lib.parse_token hdr w ≡ (p, after)
    → ((r : Response) × (after_middleware lib route p after
          ≡ (plain r, (middleware lib.pg lib.parse_token hdr w).1)))
      ⊎ ((claims : Claims) × IsLive lib hdr w claims
          × (after_middleware lib route p after
              ≡ dispatch lib route claims (middleware lib.pg lib.parse_token hdr w).1))
unfolding after_middleware
turned lib hdr route w after (answered r) e = inl (r, rw e refl)
turned lib hdr route w after (passed claims) e =
    inr (claims, middleware_sound lib.pg lib.parse_token hdr w claims (ap (λ x. x.0) e), rw e refl)

-- No handler behind the middleware runs without a live session: a request there ends with an answer of
-- the middleware and the tables as the middleware left them, or the header has a token, the first two
-- calls are done, the tables have its session, at the time of the first, as the user's, not revoked and
-- not inactive, and the handler of the route runs with the claims of that token.
pub serve_guarded_sound :
    (lib : Libraries) (hdr : String) (route : GuardedRoute) (w : World)
    → ((r : Response) × (serve_guarded lib hdr route w
          ≡ (plain r, (middleware lib.pg lib.parse_token hdr w).1)))
      ⊎ ((claims : Claims) × IsLive lib hdr w claims
          × (serve_guarded lib hdr route w
              ≡ dispatch lib route claims (middleware lib.pg lib.parse_token hdr w).1))
unfolding serve_guarded
serve_guarded_sound lib hdr route w = turned lib hdr route w _ _ refl
