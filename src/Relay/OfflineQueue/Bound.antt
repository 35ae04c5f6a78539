-- ===== src/Relay/OfflineQueue/Bound.antt =====
-- `Enqueue` and the lengths of the queues.
use Prim.Native.String.{◌++◌ as text_append}
use text.Mathlib.TextLemmas.{append_cancel_left}
use bully.Prelude.{
  List, String, [], ap, arith, eq_iff, if◌then◌else◌, length, length-drop, refl, ℕ, ◌++◌, ◌-◌, ◌==◌,
  ◌∷◌, ◌≡◌, ◌≤◌,
}
use bully.Db.{Fate, Reply, done, err, lost, ok, refused}
use bully.Relay.OfflineQueue.{
  Redis, enqueue, exec, last, offline_queue_key, offline_queue_max_len, push_all, with_id,
  with_message_id,
}
use bully.Ws.Envelope.{Envelope, Json}
use bully.Ws.Padding.{Bytes}

-- Two conversations share a key only if they are one.
pub offline_queue_key-eq : (a b : String) → (offline_queue_key a == offline_queue_key b) ≡ (a == b)
unfolding offline_queue_key
offline_queue_key-eq a b = ground (
  arith,
  eq_iff a b,
  eq_iff (text_append "offline:" a) (text_append "offline:" b),
  append_cancel_left "offline:" a b,
  λ (e : a ≡ b). ap (text_append "offline:") e,
)

length-last {ℓ} : {A : Type ℓ} (n : ℕ) (xs : List A) → length (last n xs) ≤ n
length-last n xs = omega (arith, length-drop (length xs - n) xs)

module _ (json : Json) (redis : Redis) where
  open redis use {Store, lrange, lrange-rpush, lrange-ltrim, lrange-expire}

  -- What the pipeline leaves under every key.
  pub lrange-push_all :
      (key j : String) (payload : Bytes) (s : Store)
      → lrange j (push_all json redis key payload s)
        ≡ (if key == j then last offline_queue_max_len (lrange j s ++ payload ∷ []) else lrange j s)
  unfolding push_all
  lrange-push_all key j payload s =
      simp
        (
          lrange-expire,
          λ (t : Store). lrange-ltrim key j offline_queue_max_len t (omega arith),
          lrange-rpush,
        )
        (ground arith)

  -- No queue holds more than 500.
  abbrev pub IsBounded : Store → Type 0
  IsBounded s =
      (conversation_id : String)
      → length (lrange (offline_queue_key conversation_id) s) ≤ offline_queue_max_len

  push-IsBounded :
      (key : String) (payload : Bytes) (s : Store)
      → IsBounded s
      → IsBounded (push_all json redis key payload s)
  push-IsBounded key payload s h c = ground (
    arith,
    lrange-push_all key (offline_queue_key c) payload s,
    h c,
    length-last offline_queue_max_len (lrange (offline_queue_key c) s ++ payload ∷ []),
  )

  exec-IsBounded :
      (fate : Fate) (key : String) (payload : Bytes) (s : Store)
      → IsBounded s
      → IsBounded (exec json redis fate s (push_all json redis key payload s)).1
  unfolding exec
  exec-IsBounded refused key payload s h = h
  exec-IsBounded done key payload s h = push-IsBounded key payload s h
  exec-IsBounded lost key payload s h = push-IsBounded key payload s h

  pub with_message_id_store :
      (id : String) (r : Reply (Unit {0}) × Store) → (with_message_id json redis id r).1 ≡ r.1
  unfolding with_message_id
  with_message_id_store id (ok t, s) = refl
  with_message_id_store id (err e, s) = refl

  -- If no queue holds more than 500 entries, none does after `Enqueue`, whatever becomes of its
  -- pipeline.
  pub enqueue-IsBounded :
      (fresh : String) (fate : Fate) (env : Envelope) (s : Store)
      → IsBounded s
      → IsBounded (enqueue json redis fresh fate env s).1
  unfolding enqueue
  enqueue-IsBounded fresh fate env s h =
      let m = json.marshals (with_id fresh env) in
      rw (m.1, with_message_id_store _ _) (exec-IsBounded fate _ m.0 s h)

  -- With the pipeline done `Enqueue` returns the id of the envelope that it stored.
  pub enqueue_id :
      (fresh : String) (env : Envelope) (s : Store)
      → (enqueue json redis fresh done env s).0 ≡ ok (with_id fresh env).message_id
  unfolding enqueue
  enqueue_id fresh env s = let m = json.marshals (with_id fresh env) in rw m.1
