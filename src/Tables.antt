-- ===== src/Tables.antt =====
-- The tables of migrations/0001_init.sql that the handlers use. A UUID is a number, an instant a count
-- of nanoseconds; NULL is `none`.
use bully.Prelude.{Bool, List, Option, String, ℕ}
use bully.Prelude.Int.{ℤ}

pub record UserRow : Type 0 where
  pub id : ℕ
  pub username : String
  pub password_hash : String
  pub session_inactivity_seconds : ℕ

pub record SessionRow : Type 0 where
  pub id : ℕ
  pub user_id : ℕ
  pub device_name : String
  pub platform : String
  pub created_at : ℕ
  pub last_seen_at : ℕ
  pub revoked_at : Option ℕ

-- A row of conversation_members.
pub record MemberRow : Type 0 where
  pub conversation_id : ℕ
  pub user_id : ℕ

pub record PrekeyRow : Type 0 where
  pub user_id : ℕ
  pub key_id : ℤ
  pub public_key : String
  pub signature : Option String
  pub used : Bool
  pub is_signed : Bool
  pub created_at : ℕ

pub record GroupRow : Type 0 where
  pub id : ℕ
  pub name : String
  pub owner_id : ℕ

pub record GroupMemberRow : Type 0 where
  pub group_id : ℕ
  pub user_id : ℕ
  pub role : String

-- The CHECK on `kind`.
pub data Kind : Type 0 where
  dm group : Kind

pub record ConversationRow : Type 0 where
  pub id : ℕ
  pub kind : Kind
  pub group_id : Option ℕ
  pub created_at : ℕ

pub record Db : Type 0 where
  pub users : List UserRow
  pub sessions : List SessionRow
  pub members : List MemberRow
  pub prekeys : List PrekeyRow
  pub groups : List GroupRow
  pub group_members : List GroupMemberRow
  pub conversations : List ConversationRow
