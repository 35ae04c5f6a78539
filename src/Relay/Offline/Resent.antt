-- ===== src/Relay/Offline/Resent.antt =====
-- What the channel of a new connection holds after `deliverOffline`.
use mathlib.Core.List.{filter_map, filter_map-append, filter_map-cons-some}
use bully.Prelude.{
  Bool, Bool-cases, List, String, [], ap, append-nil, append_assoc, arith, false, if◌then◌else◌,
  inl, inr, length, length-append, length-take, ltb, ltb→lt, map, nat_beq, not_ltb, refl, some,
  subst, suc, sym, take, take_all, true, zero, ℕ, ◌++◌, ◌∙◌, ◌∷◌, ◌≡◌, ◌≤◌,
}
use bully.Db.{Call, Uuids, arrived, done, select}
use bully.Db.Calls.{statement_done, with_uuid-some}
use bully.Relay.Offline.{
  deliver_offline, on_conversations, resend, resend_queues, select_conversations,
}
use bully.Relay.OfflineQueue.{Redis, for_conversation}
use bully.Tables.{Db}
use bully.Tests.{ids}
use bully.Ws.Conn.{Conn, offer, send, send_buffer_size}
use bully.Ws.Envelope.{Envelope, Json}
use bully.Ws.Padding.{Bytes}

take-take-append {ℓ} :
    {A : Type ℓ} (n : ℕ) (xs ys : List A) → take n (take n xs ++ ys) ≡ take n (xs ++ ys)
take-take-append zero xs ys = refl
take-take-append (suc n) [] ys = refl
take-take-append (suc n) (x ∷ xs) ys = ap (◌∷◌ x) (take-take-append n xs ys)

take-length-append {ℓ} : {A : Type ℓ} (xs ys : List A) → take (length xs) (xs ++ ys) ≡ xs
take-length-append [] ys = refl
take-length-append (x ∷ xs) ys = ap (◌∷◌ x) (take-length-append xs ys)

-- What a full channel drops lies beyond its capacity.
take-offer :
    (queue : List Bytes) (raw : Bytes) (rest : List Bytes)
    → length queue ≤ send_buffer_size
    → (length (offer queue raw) ≤ send_buffer_size)
      × (take send_buffer_size (offer queue raw ++ rest)
          ≡ take send_buffer_size (queue ++ raw ∷ rest))
unfolding offer
take-offer queue raw rest h = elim (Bool-cases (ltb (length queue) send_buffer_size)) [
  | inl room ↦ rw room (
    omega (arith, ltb→lt _ _ room, length-append queue (raw ∷ [])),
    ap (take send_buffer_size) (append_assoc queue (raw ∷ []) rest),
  )
  | inr full ↦
      let exact : length queue ≡ send_buffer_size = omega (arith, not_ltb _ _ full) in
      rw full (
        h,
        subst (λ n. take n (queue ++ rest) ≡ take n (queue ++ raw ∷ rest)) exact
            (take-length-append queue rest ∙ sym (take-length-append queue (raw ∷ rest))),
      )
]

module _ (json : Json) (pg : Uuids) (redis : Redis) where
  abbrev pub addressed : String → Envelope → Envelope
  addressed user_id env = record env { to_user_id = user_id }

  -- What waits for a user in the queues that Redis gives, in the order of the conversations.
  unfoldable pub backlog : (ℕ → Bool) → ℕ → String → List String → redis.Store → List Envelope
  backlog up k user_id [] store = []
  backlog up k user_id (conversation ∷ conversations) store =
      (if up k
        then map (addressed user_id) (for_conversation json redis conversation store)
        else [])
      ++ backlog up (suc k) user_id conversations store

  sent :
      (conn : Conn) (env : Envelope) (raw : Bytes)
      → json.marshal env ≡ some raw
      → send json conn env ≡ record conn { send = offer conn.send raw }
  unfolding send
  sent conn env raw e = rw (e, send)

  resend-send :
      (user_id : String) (envs : List Envelope) (conn : Conn)
      → length conn.send ≤ send_buffer_size
      → (resend json pg redis user_id envs conn).send
        ≡ take send_buffer_size
            (conn.send ++ filter_map json.marshal (map (addressed user_id) envs))
  unfolding resend filter_map
  resend-send user_id [] conn h =
      sym
        (ap (take send_buffer_size) (append-nil conn.send) ∙ take_all send_buffer_size conn.send h)
  resend-send user_id (env ∷ envs) conn h =
      let m = json.marshals (addressed user_id env) in
      let waiting = map (addressed user_id) envs in
      let t = take-offer conn.send m.0 (filter_map json.marshal waiting) h in
      ap (λ (d : Conn). (resend json pg redis user_id envs d).send)
        (sent conn (addressed user_id env) m.0 m.1)
      ∙ resend-send user_id envs (record conn { send = offer conn.send m.0 }) t.0
      ∙ t.1
      ∙ ap (λ queue. take send_buffer_size (conn.send ++ queue))
          (sym (filter_map-cons-some json.marshal (addressed user_id env) waiting m.1))

  -- One queue, read or not, in front of those that `rest` sends.
  one_queue :
      (rest : Conn → Conn) (later : List Envelope)
      → ((c : Conn)
          → length c.send ≤ send_buffer_size
          → (rest c).send ≡ take send_buffer_size (c.send ++ filter_map json.marshal later))
      → (given : Bool) (user_id : String) (envs : List Envelope) (conn : Conn)
      → length conn.send ≤ send_buffer_size
      → (rest (if given then resend json pg redis user_id envs conn else conn)).send
        ≡ take send_buffer_size (
            conn.send
            ++ filter_map json.marshal
                ((if given then map (addressed user_id) envs else []) ++ later))
  one_queue rest later ih false user_id envs conn h = ih conn h
  one_queue rest later ih true user_id envs conn h =
      let first = filter_map json.marshal (map (addressed user_id) envs) in
      let after = filter_map json.marshal later in
      let one = resend-send user_id envs conn h in
      let fits : length (resend json pg redis user_id envs conn).send ≤ send_buffer_size =
        omega (arith, ap length one, length-take send_buffer_size (conn.send ++ first)) in
      ih (resend json pg redis user_id envs conn) fits
      ∙ ap (λ queue. take send_buffer_size (queue ++ after)) one
      ∙ take-take-append send_buffer_size (conn.send ++ first) after
      ∙ ap (take send_buffer_size) (append_assoc conn.send first after)
      ∙ ap (λ queue. take send_buffer_size (conn.send ++ queue))
          (sym (filter_map-append json.marshal (map (addressed user_id) envs) later))

  resend_queues-send :
      (up : ℕ → Bool) (k : ℕ) (user_id : String) (ids : List String) (store : redis.Store)
      (conn : Conn)
      → length conn.send ≤ send_buffer_size
      → (resend_queues json pg redis up k user_id ids store conn).send
        ≡ take send_buffer_size
            (conn.send ++ filter_map json.marshal (backlog up k user_id ids store))
  unfolding resend_queues backlog filter_map
  resend_queues-send up k user_id [] store conn h =
      sym
        (ap (take send_buffer_size) (append-nil conn.send) ∙ take_all send_buffer_size conn.send h)
  resend_queues-send up k user_id (id ∷ ids) store conn h =
      one_queue (resend_queues json pg redis up (suc k) user_id ids store)
        (backlog up (suc k) user_id ids store) (resend_queues-send up (suc k) user_id ids store)
        (up k) user_id (for_conversation json redis id store) conn h

  -- If the user's id is the text of a UUID, the channel is within its capacity, and the query of
  -- `deliverOffline` is done, the channel afterwards holds what it held and then, addressed to the
  -- user, the envelopes of the queues that Redis gives, in order, as far as its capacity goes; the
  -- queues are those of the user's conversations that arrive.
  pub deliver_offline-send :
      (up : ℕ → Bool) (user_id : String) (u : ℕ) (store : redis.Store) (conn : Conn) (db : Db)
      (c : Call) (cs : List Call)
      → pg.parse user_id ≡ some u
      → c.fate ≡ done
      → length conn.send ≤ send_buffer_size
      → let conversations =
          arrived c.break_after (
            map (λ r. pg.print r.conversation_id) (select (λ r. nat_beq r.user_id u) db.members)) in
        (deliver_offline json pg redis up user_id store conn
          (record { db = db; calls = c ∷ cs })).0.send
        ≡ take send_buffer_size
            (conn.send ++ filter_map json.marshal (backlog up 0 user_id conversations store))
  unfolding deliver_offline on_conversations select_conversations
  deliver_offline-send up user_id u store conn db c cs eu fc h =
      rw
        (
          statement_done (select_conversations json pg redis user_id) db c cs fc,
          with_uuid-some pg user_id db _ u eu,
        )
        (resend_queues-send up 0 user_id _ store conn h)
