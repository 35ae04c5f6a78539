-- ===== src/Relay/OfflineQueue.antt =====
-- relay/offline_queue.go. Redis is not part of the program: `Redis` states what the code relies on of
-- the four commands that it uses. The time to live only ever removes a whole queue later.
use Prim.Native.String.{◌++◌ as text_append}
pub mod Bound
pub mod Fifo
use bully.Prelude.{
  List, Option, String, [], drop, if◌then◌else◌, length, none, some, to_list, ℕ, ◌*◌, ◌++◌, ◌-◌,
  ◌<◌, ◌==◌, ◌∷◌, ◌≡◌,
}
use bully.Db.{Fate, Reply, db_failed, done, err, lost, ok, refused}
use bully.Ws.Envelope.{Envelope, Json}
use bully.Ws.Padding.{Bytes}

abbrev pub last {ℓ} : {A : Type ℓ} → ℕ → List A → List A
last n xs = drop (length xs - n) xs

pub record Redis : Type 1 where
  pub Store : Type 0
  -- RPUSH key value
  pub rpush : String → Bytes → Store → Store
  -- LTRIM key -n -1
  pub ltrim : String → ℕ → Store → Store
  -- EXPIRE key seconds
  pub expire : String → ℕ → Store → Store
  -- LRANGE key 0 -1
  pub lrange : String → Store → List Bytes
  pub lrange-rpush :
      (k j : String) (v : Bytes) (s : Store)
      → lrange j (rpush k v s) ≡ (if k == j then lrange j s ++ v ∷ [] else lrange j s)
  pub lrange-ltrim :
      (k j : String) (n : ℕ) (s : Store)
      → 0 < n
      → lrange j (ltrim k n s) ≡ (if k == j then last n (lrange j s) else lrange j s)
  pub lrange-expire : (k j : String) (ttl : ℕ) (s : Store) → lrange j (expire k ttl s) ≡ lrange j s

-- `offlineQueueMaxLen`
abbrev pub offline_queue_max_len : ℕ
offline_queue_max_len = 500

-- `offlineQueueTTL`, in seconds.
abbrev pub offline_queue_ttl : ℕ
offline_queue_ttl = 14 * 24 * 3600

pub offline_queue_key : String → String
offline_queue_key conversation_id = text_append "offline:" conversation_id

-- The envelope with an id: its own, or a new one.
unfoldable pub with_id : String → Envelope → Envelope
with_id fresh env = if env.message_id == "" then record env { message_id = fresh } else env

module _ (json : Json) (redis : Redis) where
  open redis use {Store, rpush, ltrim, expire, lrange}

  -- The pipeline of `Enqueue`, which Redis runs as one transaction.
  unfoldable pub push_all : String → Bytes → Store → Store
  push_all key payload s =
      expire key offline_queue_ttl (ltrim key offline_queue_max_len (rpush key payload s))

  -- What `pipe.Exec` reports, and leaves.
  unfoldable pub exec : Fate → Store → Store → Reply (Unit {0}) × Store
  exec refused s after = (err db_failed, s)
  exec done s after = (ok tt, after)
  exec lost s after = (err db_failed, after)

  -- The end of `Enqueue`, which returns the id beside the error.
  unfoldable pub with_message_id : String → Reply (Unit {0}) × Store → Reply String × Store
  with_message_id id (ok t, s) = (ok id, s)
  with_message_id id (err e, s) = (err e, s)

  unfoldable pub push_marshalled : Fate → Envelope → Option Bytes → Store → Reply String × Store
  unfolding push_all exec with_message_id
  push_marshalled fate env none s = (err db_failed, s)
  push_marshalled fate env (some payload) s =
      let key = offline_queue_key env.conversation_id in
      with_message_id env.message_id (exec fate s (push_all key payload s))

  -- `Enqueue`; `fresh` is what `newMessageID` would give, and `fate` what becomes of the pipeline.
  unfoldable pub enqueue : String → Fate → Envelope → Store → Reply String × Store
  unfolding push_marshalled with_id
  enqueue fresh fate env s =
      let env' = with_id fresh env in push_marshalled fate env' (json.marshal env') s

  -- The loop of `ForConversation`: what does not read back is left out.
  unfoldable pub decode_all : List Bytes → List Envelope
  decode_all [] = []
  decode_all (item ∷ raw) = to_list (json.unmarshal item) ++ decode_all raw

  -- `ForConversation`, on a read that is answered.
  unfoldable pub for_conversation : String → Store → List Envelope
  for_conversation conversation_id s = decode_all (lrange (offline_queue_key conversation_id) s)
