-- ===== src/Relay/Offline.antt =====
-- relay.go, `deliverOffline` and `Serve`: a device connects. The ticker of the new connection is taken
-- not to fire while the queues are read.
pub mod Resent
pub mod Entrants
use bully.Prelude.{
  Bool, List, Option, String, [], false, if◌then◌else◌, map, nat_beq, none, some, suc, true, ℕ, ◌∷◌,
}
use bully.Auth.{Claims, Response, Tokens, error_text}
use bully.Db.{Call, Reply, Uuids, World, arrived, err, ok, select, statement, with_uuid}
use bully.Relay.Inbound.{Server}
use bully.Relay.OfflineQueue.{Redis, for_conversation}
use bully.Session.{is_valid}
use bully.Tables.{Db}
use bully.Tests.{ids}
use bully.Ws.Conn.{Conn, new_conn, send}
use bully.Ws.Envelope.{Envelope, Json}
use bully.Ws.Hub.{register, unregister, update}

module _ (json : Json) (pg : Uuids) (redis : Redis) where
  -- `SELECT conversation_id FROM conversation_members WHERE user_id = $1`
  unfoldable pub select_conversations : String → Call → Db → Reply (List String) × Db
  select_conversations user_id c db = with_uuid pg user_id db λ u. (
    ok (
        arrived c.break_after
          (map (λ r. pg.print r.conversation_id) (select (λ r. nat_beq r.user_id u) db.members))),
    db,
  )

  -- The loop over the envelopes of one queue.
  unfoldable pub resend : String → List Envelope → Conn → Conn
  resend user_id [] conn = conn
  resend user_id (env ∷ envs) conn =
      resend user_id envs (send json conn (record env { to_user_id = user_id }))

  -- The loop over the conversations; `up` says whether Redis answers the k-th read, and a queue that
  -- it does not give is passed over.
  unfoldable pub resend_queues : (ℕ → Bool) → ℕ → String → List String → redis.Store → Conn → Conn
  unfolding resend
  resend_queues up k user_id [] store conn = conn
  resend_queues up k user_id (conversation ∷ conversations) store conn =
      resend_queues up (suc k) user_id conversations store (
        if up k then resend user_id (for_conversation json redis conversation store) conn else conn)

  unfoldable pub on_conversations :
      (ℕ → Bool) → String → redis.Store → Conn → Reply (List String) → Conn
  unfolding resend_queues
  on_conversations up user_id store conn (err e) = conn
  on_conversations up user_id store conn (ok ids) = resend_queues up 0 user_id ids store conn

  -- `deliverOffline`
  unfoldable pub deliver_offline : (ℕ → Bool) → String → redis.Store → Conn → World → Conn × World
  unfolding on_conversations
  deliver_offline up user_id store conn w =
      let (r, after) = statement (select_conversations user_id) w in
      (on_conversations up user_id store conn r, after)

  -- How `Serve` begins: it answers 401, the upgrade fails, or the connection stands.
  pub data Entry : Type 0 where
    turned_away : Response → Entry
    not_upgraded : Entry
    entered : Claims → Entry

  -- `Register` at the pointer `p`, and `deliverOffline`.
  unfoldable pub enter : (ℕ → Bool) → ℕ → Claims → Server json pg redis → Server json pg redis
  unfolding new_conn deliver_offline
  enter up p claims s =
      let (conn, w) = deliver_offline up claims.user_id s.store (new_conn claims.user_id) s.world in
      record s {
        world = w;
        node = record s.node {
          conns = register claims.user_id p s.node.conns;
          heap = update s.node.heap p conn;
        };
      }

  -- `err != nil || !valid`, and the upgrade.
  unfoldable pub serve_valid :
      (ℕ → Bool)
      → Bool
      → ℕ
      → Claims
      → Reply Bool
      → Server json pg redis
      → Entry × Server json pg redis
  unfolding enter
  serve_valid up upgrades p claims (err e) s =
      (turned_away (record { status = 401; body = error_text "session revoked" }), s)
  serve_valid up upgrades p claims (ok false) s =
      (turned_away (record { status = 401; body = error_text "session revoked" }), s)
  serve_valid up upgrades p claims (ok true) s =
      if upgrades then (entered claims, enter up p claims s) else (not_upgraded, s)

  unfoldable pub serve_claims :
      (ℕ → Bool) → Bool → ℕ → Option Claims → Server json pg redis → Entry × Server json pg redis
  unfolding serve_valid
  serve_claims up upgrades p none s =
      (turned_away (record { status = 401; body = error_text "invalid token" }), s)
  serve_claims up upgrades p (some claims) s =
      let (r, w) = is_valid pg claims.session_id claims.user_id s.world in
      serve_valid up upgrades p claims r (record s { world = w })

  -- `Serve`, up to the reader; `token` is the parameter of the query.
  unfoldable pub serve :
      Tokens → (ℕ → Bool) → Bool → ℕ → String → Server json pg redis → Entry × Server json pg redis
  unfolding serve_claims
  serve parse_token up upgrades p token s = serve_claims up upgrades p (parse_token token) s

  -- The deferred `Unregister`, when the reader has ended.
  unfoldable pub leave : ℕ → Claims → Server json pg redis → Server json pg redis
  leave p claims s = record s {
    node = record s.node { conns = unregister claims.user_id p s.node.conns };
  }
