-- ===== src/Ws/Envelope.antt =====
-- The `Envelope` of hub.go, and what the code relies on of `encoding/json`.
use bully.Prelude.{Option, String, [], some, ◌≡◌, ◌≢◌}
use bully.Ws.Padding.{Bytes}

pub record Envelope : Type 0 where
  -- the field `Type` of the source
  pub kind : String
  pub conversation_id : String
  pub from_user_id : String
  pub to_user_id : String
  pub message_id : String
  pub ciphertext : String
  pub header : String

-- `json.Marshal` and `json.Unmarshal` at `Envelope`. A text of the model is a sequence of Unicode
-- characters, which JSON carries unchanged; marshalling a struct of texts does not fail.
pub record Json : Type 0 where
  pub marshal : Envelope → Option Bytes
  pub unmarshal : Bytes → Option Envelope
  pub marshals : (env : Envelope) → (raw : Bytes) × (marshal env ≡ some raw)
  pub not_empty : (env : Envelope) → marshal env ≢ some []
  pub unmarshal-marshal :
      (env : Envelope) (raw : Bytes) → marshal env ≡ some raw → unmarshal raw ≡ some env
