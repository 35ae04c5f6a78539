-- ===== src/Relay/Inbound/Rights.antt =====
-- Who may have the server do something.
use bully.Prelude.{
  Bool, Bool-cases, List, String, ap, false, inl, inr, refl, some, subst, sym, true, ℕ, ◌==◌, ◌||◌,
  ◌∙◌, ◌≡◌, ◌⊎◌,
}
use bully.Convo.{is_member, is_member_row, member_ids, select_exists}
use bully.Convo.Laws.{is_member-Unchanged, member_ids-Unchanged}
use bully.Db.{Reply, Uuids, World, any_row, err, ok}
use bully.Db.Calls.{reply_inj, statement_ok, with_uuid_ok}
use bully.Relay.Inbound.{
  Outside, Server, handle_inbound, handle_message, handle_signal, is_yes, on_enqueued, on_members,
}
use bully.Relay.OfflineQueue.{Redis}
use bully.Tables.{Db}
use bully.Ws.Envelope.{Envelope, Json}

module _ (json : Json) (pg : Uuids) (redis : Redis) where
  -- The tables have the sender among the members of the conversation.
  abbrev pub IsMemberOf : Envelope → Db → Type 0
  IsMemberOf env db =
      (k u : ℕ) × (pg.parse env.conversation_id ≡ some k)
      × (pg.parse env.from_user_id ≡ some u)
      × (any_row (is_member_row k u) db.members ≡ true)

  is_yes_ok : (r : Reply Bool) → is_yes json pg redis r ≡ true → r ≡ ok true
  is_yes_ok (err e) h = cc
  is_yes_ok (ok b) h = ap ok h

  asked_yes :
      (env : Envelope) (w : World)
      → is_yes json pg redis (is_member pg env.conversation_id env.from_user_id w).0 ≡ true
      → IsMemberOf env w.db
  unfolding is_member select_exists
  asked_yes env w h =
      let (c, cs, calls, fc, hc, after) = statement_ok _ w true (is_yes_ok _ h) in
      let (k, ek, hk, same_k) = with_uuid_ok pg env.conversation_id w.db _ true hc in
      let (u, eu, hu, same_u) = with_uuid_ok pg env.from_user_id w.db _ true hk in
      (k, u, ek, eu, reply_inj _ _ hu)

  -- What a call may have done: nothing but read, or something, on the right given.
  abbrev pub Allowed : Envelope → Server json pg redis → Server json pg redis → Type 0
  Allowed env s t =
      (t.world.db ≡ s.world.db)
      × (((t.node ≡ s.node) × (t.store ≡ s.store))
          ⊎ (((env.kind == "direct") ≡ true) × ((env.to_user_id == "") ≡ false))
          ⊎ IsMemberOf env s.world.db)

  signal-Allowed :
      (o : Outside json pg redis) (env : Envelope) (s : Server json pg redis)
      → Allowed env s (handle_signal json pg redis o env s)
  unfolding handle_signal
  signal-Allowed o env s =
      let asked = (is_member-Unchanged pg env.conversation_id env.from_user_id).moves s.world in
      elim (Bool-cases
        (is_yes json pg redis (is_member pg env.conversation_id env.from_user_id s.world).0)) [
          | inl member ↦ rw member (asked, inr (inr (asked_yes env s.world member)))
          | inr stranger ↦ rw stranger (asked, inl (refl, refl))
        ]

  enqueued-reads :
      (o : Outside json pg redis) (env : Envelope) (s : Server json pg redis)
      (r : Reply String × redis.Store)
      → (on_enqueued json pg redis o env s r).world.db ≡ s.world.db
  unfolding on_enqueued
  enqueued-reads o env s (err e, store) = refl
  enqueued-reads o env s (ok id, store) =
      members-reads (member_ids pg env.conversation_id s.world)
      ∙ (member_ids-Unchanged pg env.conversation_id).moves s.world
    where
      members-reads :
          (r : Reply (List String) × World)
          → (on_members json pg redis o
              (record env { message_id = id })
              (record s { store = store })
              r).world.db
            ≡ r.1.db
      members-reads (err e, w) = refl
      members-reads (ok ms, w) = refl

  message-Allowed :
      (o : Outside json pg redis) (env : Envelope) (s : Server json pg redis)
      → Allowed env s (handle_message json pg redis o env s)
  unfolding handle_message
  message-Allowed o env s =
      let asked = (is_member-Unchanged pg env.conversation_id env.from_user_id).moves s.world in
      elim (Bool-cases
        (is_yes json pg redis (is_member pg env.conversation_id env.from_user_id s.world).0)) [
          | inl member ↦ rw member (
            enqueued-reads o env
                  (record s {
                    world = (is_member pg env.conversation_id env.from_user_id s.world).1;
                  })
                  _
                ∙ asked,
            inr (inr (asked_yes env s.world member)),
          )
          | inr stranger ↦ rw stranger (asked, inl (refl, refl))
        ]

  -- On every path `handleInbound` leaves the tables alone, and it changes the node or the queues only for
  -- a `direct` envelope with a recipient, or if the tables have the sender as a member of the
  -- conversation that the envelope names.
  pub handle_inbound-Allowed :
      (o : Outside json pg redis) (env : Envelope) (s : Server json pg redis)
      → Allowed env s (handle_inbound json pg redis o env s)
  unfolding handle_inbound
  handle_inbound-Allowed o env s = elim (Bool-cases (env.kind == "direct")) [
    | inl direct ↦ elim (Bool-cases (env.to_user_id == "")) [
      | inl nobody ↦ rw (direct, nobody) (refl, inl (refl, refl))
      | inr somebody ↦ rw (direct, somebody) (refl, inr (inl (refl, refl)))
    ]
    | inr other ↦ elim (Bool-cases (env.kind == "call_signal" || env.kind == "avatar")) [
      | inl signal ↦ elim (Bool-cases (env.to_user_id == "")) [
        | inl nobody ↦ rw (other, signal, nobody) (refl, inl (refl, refl))
        | inr somebody ↦
            let same : handle_inbound json pg redis o env s ≡ handle_signal json pg redis o env s =
              rw (other, signal, somebody) in
            subst (Allowed env s) (sym same) (signal-Allowed o env s)
      ]
      | inr plain ↦ elim (Bool-cases (env.kind == "message")) [
        | inl msg ↦
            let same : handle_inbound json pg redis o env s ≡ handle_message json pg redis o env s =
              rw (other, plain, msg) in
            subst (Allowed env s) (sym same) (message-Allowed o env s)
        | inr unknown ↦ rw (other, plain, unknown) (refl, inl (refl, refl))
      ]
    ]
  ]
