-- ===== src/Relay/OfflineQueue/Fifo.antt =====
-- `Enqueue` followed by `ForConversation`.
use bully.Prelude.{
  All, All-append, All-drop, Bool, Bool-cases, List, String, [], ap, append_assoc, arith, drop,
  false, if◌then◌else◌, inl, inr, length, refl, some, suc, sym, to_list, true, zero, ℕ, ◌++◌, ◌-◌,
  ◌==◌, ◌∙◌, ◌∷◌, ◌≡◌,
}
use bully.Db.{Fate, done, lost, ok, refused}
use bully.Relay.OfflineQueue.{
  Redis, decode_all, enqueue, exec, for_conversation, last, offline_queue_key,
  offline_queue_max_len, push_all, with_id,
}
use bully.Relay.OfflineQueue.Bound.{lrange-push_all, offline_queue_key-eq, with_message_id_store}
use bully.Ws.Envelope.{Envelope, Json}
use bully.Ws.Padding.{Bytes}

module _ (json : Json) (redis : Redis) where
  open redis use {Store, lrange}

  -- An entry that reads back as an envelope.
  abbrev pub Reads : Bytes → Type 0
  Reads raw = (env : Envelope) × (json.unmarshal raw ≡ some env)

  -- Every entry of every queue reads back as an envelope.
  abbrev pub IsReadable : Store → Type 0
  IsReadable s =
      (conversation_id : String) → All Reads (lrange (offline_queue_key conversation_id) s)

  length-decode_all :
      (raw : List Bytes) → All Reads raw → length (decode_all json redis raw) ≡ length raw
  unfolding decode_all
  length-decode_all [] h = refl
  length-decode_all (item ∷ raw) h = rw h.0.1 (ap suc (length-decode_all raw h.1))

  decode_all-drop :
      (n : ℕ) (raw : List Bytes)
      → All Reads raw
      → decode_all json redis (drop n raw) ≡ drop n (decode_all json redis raw)
  unfolding decode_all
  decode_all-drop zero raw h = refl
  decode_all-drop (suc n) [] h = refl
  decode_all-drop (suc n) (item ∷ raw) h = rw h.0.1 (decode_all-drop n raw h.1)

  decode_all-append :
      (xs ys : List Bytes)
      → decode_all json redis (xs ++ ys) ≡ decode_all json redis xs ++ decode_all json redis ys
  unfolding decode_all
  decode_all-append [] ys = refl
  decode_all-append (x ∷ xs) ys = rw (decode_all-append xs ys) (
      sym (
        append_assoc (to_list (json.unmarshal x)) (decode_all json redis xs)
          (decode_all json redis ys)))

  All-if-list :
      (b : Bool) (xs ys : List Bytes)
      → All Reads xs
      → All Reads ys
      → All Reads (if b then xs else ys)
  All-if-list true xs ys hx hy = hx
  All-if-list false xs ys hx hy = hy

  decode_all-last :
      (n : ℕ) (raw : List Bytes)
      → All Reads raw
      → decode_all json redis (last n raw) ≡ last n (decode_all json redis raw)
  decode_all-last n raw h =
      decode_all-drop (length raw - n) raw h
      ∙ ap (λ k. drop (k - n) (decode_all json redis raw)) (sym (length-decode_all raw h))

  with_id_key :
      (fresh : String) (env : Envelope) → (with_id fresh env).conversation_id ≡ env.conversation_id
  unfolding with_id
  with_id_key fresh env = ground arith

  decode_marshal :
      (env : Envelope) (raw : Bytes)
      → json.marshal env ≡ some raw
      → decode_all json redis (raw ∷ []) ≡ env ∷ []
  unfolding decode_all
  decode_marshal env raw e = rw (json.unmarshal-marshal env raw e)

  -- If every entry of the queues reads back and the pipeline is done, `Enqueue` returns the id of
  -- the envelope that it stored. `ForConversation` then gives the envelope as the last of its
  -- conversation's, of which the latest 500 stay; the other conversations' are untouched.
  pub enqueue-for_conversation :
      (fresh conversation_id : String) (env : Envelope) (s : Store)
      → IsReadable s
      → let r = enqueue json redis fresh done env s in
        let stored = with_id fresh env in
        (r.0 ≡ ok stored.message_id)
        × (for_conversation json redis conversation_id r.1 ≡ (
            if env.conversation_id == conversation_id
            then last offline_queue_max_len
                (for_conversation json redis conversation_id s ++ stored ∷ [])
            else for_conversation json redis conversation_id s))
  unfolding enqueue for_conversation
  enqueue-for_conversation fresh c env s h =
      let stored = with_id fresh env in
      let m = json.marshals stored in
      let queue = lrange (offline_queue_key c) s in
      let reads =
        All-append Reads queue (m.0 ∷ []) (h c)
          ((stored, json.unmarshal-marshal stored m.0 m.1), tt) in
      rw m.1 (
        refl,
        rw
            (
              lrange-push_all json redis (offline_queue_key stored.conversation_id)
                  (offline_queue_key c) m.0 s,
              offline_queue_key-eq stored.conversation_id c,
              with_id_key fresh env,
            )
            (elim (Bool-cases (env.conversation_id == c)) [
              | inl same ↦ rw same (
                  decode_all-last offline_queue_max_len (queue ++ m.0 ∷ []) reads
                  ∙ ap (last offline_queue_max_len) (
                      decode_all-append queue (m.0 ∷ [])
                      ∙ ap (◌++◌ (decode_all json redis queue)) (decode_marshal stored m.0 m.1)))
              | inr other ↦ rw other
            ]),
      )

  push-IsReadable :
      (key : String) (env : Envelope) (payload : Bytes) (s : Store)
      → json.marshal env ≡ some payload
      → IsReadable s
      → IsReadable (push_all json redis key payload s)
  push-IsReadable key env payload s e h c =
      let queue = lrange (offline_queue_key c) s in
      let all =
        All-append Reads queue (payload ∷ []) (h c)
          ((env, json.unmarshal-marshal env payload e), tt) in
      rw (lrange-push_all json redis key (offline_queue_key c) payload s) (
        All-if-list (key == offline_queue_key c) _ queue
          (All-drop Reads _ (queue ++ payload ∷ []) all) (h c))

  exec-IsReadable :
      (fate : Fate) (s after : Store)
      → IsReadable s
      → IsReadable after
      → IsReadable (exec json redis fate s after).1
  unfolding exec
  exec-IsReadable refused s after h k = h
  exec-IsReadable done s after h k = k
  exec-IsReadable lost s after h k = k

  -- If every entry of the queues reads back as an envelope, this is so after `Enqueue`, whatever
  -- becomes of its pipeline.
  pub enqueue-IsReadable :
      (fresh : String) (fate : Fate) (env : Envelope) (s : Store)
      → IsReadable s
      → IsReadable (enqueue json redis fresh fate env s).1
  unfolding enqueue
  enqueue-IsReadable fresh fate env s h =
      let m = json.marshals (with_id fresh env) in
      rw (m.1, with_message_id_store json redis _ _)
        (exec-IsReadable fate s _ h (push-IsReadable _ (with_id fresh env) m.0 s m.1 h))
