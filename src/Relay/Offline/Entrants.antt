-- ===== src/Relay/Offline/Entrants.antt =====
-- Who gets a connection.
use bully.Prelude.{
  Bool, List, Option, String, [], ap, arith, false, if◌then◌else◌, none, refl, some, subst, true, ℕ,
  ◌++◌, ◌==◌, ◌∙◌, ◌∷◌, ◌≡◌,
}
use bully.Auth.{Claims, Tokens}
use bully.Db.{Call, Reply, Uuids, done, err, ok}
use bully.Relay.Inbound.{Server}
use bully.Relay.Offline.{enter, entered, serve, serve_claims, serve_valid}
use bully.Relay.OfflineQueue.{Redis}
use bully.Session.{is_valid}
use bully.Session.Validity.{is_valid_sound, verdict}
use bully.Ws.Envelope.{Json}
use bully.Ws.Hub.{local_conns}
use bully.Ws.Hub.Laws.{local_conns-register}

module _ (json : Json) (pg : Uuids) (redis : Redis) where
  valid_entered :
      (up : ℕ → Bool) (upgrades : Bool) (p : ℕ) (claims cl : Claims) (r : Reply Bool)
      (s : Server json pg redis)
      → (serve_valid json pg redis up upgrades p cl r s).0 ≡ entered claims
      → (r ≡ ok true)
        × (cl ≡ claims)
        × ((serve_valid json pg redis up upgrades p cl r s).1 ≡ enter json pg redis up p cl s)
  unfolding serve_valid
  valid_entered up upgrades p claims cl (err e) s h = cc
  valid_entered up upgrades p claims cl (ok false) s h = cc
  valid_entered up false p claims cl (ok true) s h = cc
  valid_entered up true p claims cl (ok true) s h = (refl, ground arith, refl)

  claims_entered :
      (up : ℕ → Bool) (upgrades : Bool) (p : ℕ) (claims : Claims) (parsed : Option Claims)
      (s : Server json pg redis)
      → (serve_claims json pg redis up upgrades p parsed s).0 ≡ entered claims
      → let r = is_valid pg claims.session_id claims.user_id s.world in
        (parsed ≡ some claims)
        × (r.0 ≡ ok true)
        × ((serve_claims json pg redis up upgrades p parsed s).1
            ≡ enter json pg redis up p claims (record s { world = r.1 }))
  unfolding serve_claims
  claims_entered up upgrades p claims none s h = cc
  claims_entered up upgrades p claims (some cl) s h =
      let (valid, same, after) = valid_entered up upgrades p claims cl _ _ h in
      (
        ap some same,
        subst (λ (c : Claims). (is_valid pg c.session_id c.user_id s.world).0 ≡ ok true) same valid,
        after
            ∙ ap
                (λ (c : Claims).
                  enter json pg redis up p c
                    (record s { world = (is_valid pg c.session_id c.user_id s.world).1 }))
                same,
      )

  -- `Serve` lets a device in only with a token that parses to some claims, after two calls that were
  -- done, and if at the time of the first the tables had the session of the claims as their user's, not
  -- revoked and not inactive; the new connection then stands after the others
  -- of that user, and no other user gets one.
  pub serve-entered :
      (parse_token : Tokens) (up : ℕ → Bool) (upgrades : Bool) (p : ℕ) (token : String)
      (s : Server json pg redis) (claims : Claims)
      → (serve json pg redis parse_token up upgrades p token s).0 ≡ entered claims
      → let t = (serve json pg redis parse_token up upgrades p token s).1 in
        (sid u : ℕ) × (c d : Call) × (cs : List Call) × (parse_token token ≡ some claims)
        × (pg.parse claims.session_id ≡ some sid)
        × (pg.parse claims.user_id ≡ some u)
        × (s.world.calls ≡ c ∷ d ∷ cs)
        × (c.fate ≡ done)
        × (d.fate ≡ done)
        × (verdict sid u c.now s.world.db ≡ true)
        × ((v : String)
            → local_conns v t.node.conns ≡ (
                if claims.user_id == v
                then local_conns claims.user_id s.node.conns ++ p ∷ []
                else local_conns v s.node.conns))
  unfolding serve enter
  serve-entered parse_token up upgrades p token s claims h =
      let (parsed, valid, after) = claims_entered up upgrades p claims _ s h in
      let (sid, u, c, d, cs, es, eu, calls, fc, fd, v) =
        is_valid_sound pg claims.session_id claims.user_id s.world valid in
      (
        sid,
        u,
        c,
        d,
        cs,
        parsed,
        es,
        eu,
        calls,
        fc,
        fd,
        v,
        λ user.
            ap (λ t. local_conns user t.node.conns) after
            ∙ local_conns-register claims.user_id user p s.node.conns,
      )
