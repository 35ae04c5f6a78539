-- ===== src/Tests.antt =====
-- Tests of the definitions, and the theorems at concrete inputs. Here are the instances: a codec for
-- envelopes, identifiers in unary, and a Redis that is a function.
use Prim.Native.Char.{Char, IsLt, char, code}
use Prim.Native.Nat.{Ordering, compare}
mod Frames
mod Hubs
mod Relays
mod Limits
mod Sessions
mod Routes
mod Keyring
mod Chats
mod Accounts
mod Users
mod Servers
use bully.Prelude.{
  Bool, List, Option, String, [], ap, ap₂, false, if◌then◌else◌, length, nat_beq, none, refl, some,
  suc, sym, true, zero, ℕ, ◌++◌, ◌==◌, ◌∙◌, ◌∷◌, ◌≡◌, ◌≢◌,
}
use bully.Db.{Uuids}
use bully.Relay.OfflineQueue.{Redis, last}
use bully.Ws.Envelope.{Envelope, Json}
use bully.Ws.Padding.{Bytes}

-- The shape of `IsScalar`, on its three comparisons.
abbrev BothLt : Ordering → Ordering → Type 0
BothLt Ordering.lt q = IsLt q
BothLt Ordering.eq q = ⊥
BothLt Ordering.gt q = ⊥

abbrev Scalar : Ordering → Ordering → Ordering → Type 0
Scalar Ordering.lt p q = Unit
Scalar Ordering.eq p q = BothLt p q
Scalar Ordering.gt p q = BothLt p q

abbrev is_lt : (o : Ordering) → Option (IsLt o)
is_lt Ordering.lt = some tt
is_lt Ordering.eq = none
is_lt Ordering.gt = none

abbrev is_both : (p q : Ordering) → Option (BothLt p q)
is_both Ordering.lt q = is_lt q
is_both Ordering.eq q = none
is_both Ordering.gt q = none

abbrev is_scalar : (o p q : Ordering) → Option (Scalar o p q)
is_scalar Ordering.lt p q = some tt
is_scalar Ordering.eq p q = is_both p q
is_scalar Ordering.gt p q = is_both p q

is_lt-some : (o : Ordering) (h : IsLt o) → is_lt o ≡ some h
is_lt-some Ordering.lt h = refl
is_lt-some Ordering.eq h = absurd h
is_lt-some Ordering.gt h = absurd h

is_both-some : (p q : Ordering) (h : BothLt p q) → is_both p q ≡ some h
is_both-some Ordering.lt q h = is_lt-some q h
is_both-some Ordering.eq q h = absurd h
is_both-some Ordering.gt q h = absurd h

is_scalar-some : (o p q : Ordering) (h : Scalar o p q) → is_scalar o p q ≡ some h
is_scalar-some Ordering.lt p q h = refl
is_scalar-some Ordering.eq p q h = is_both-some p q h
is_scalar-some Ordering.gt p q h = is_both-some p q h

abbrev char_when :
    (n : ℕ) → Option (Scalar (compare n 55296) (compare 57343 n) (compare n 1114112)) → Option Char
char_when n none = none
char_when n (some p) = some (char n p)

abbrev pub char_of : ℕ → Option Char
char_of n = char_when n (is_scalar (compare n 55296) (compare 57343 n) (compare n 1114112))

char_of-code : (c : Char) → char_of (code c) ≡ some c
char_of-code (char n p) = ap (char_when n) (is_scalar-some _ _ _ p)

-- A text as the numbers of its characters plus one, ended by 0.
abbrev write_text : String → Bytes → Bytes
write_text String.[] rest = 0 ∷ rest
write_text (String.◌∷◌ c s) rest = suc (code c) ∷ write_text s rest

abbrev prefixed : Option Char → Option (String × Bytes) → Option (String × Bytes)
prefixed none r = none
prefixed (some c) none = none
prefixed (some c) (some (s, rest)) = some (String.◌∷◌ c s, rest)

abbrev read_text : Bytes → Option (String × Bytes)
read_text [] = none
read_text (zero ∷ rest) = some (String.[], rest)
read_text (suc n ∷ rest) = prefixed (char_of n) (read_text rest)

read_text-write_text : (s : String) (rest : Bytes) → read_text (write_text s rest) ≡ some (s, rest)
read_text-write_text String.[] rest = refl
read_text-write_text (String.◌∷◌ c s) rest =
    ap₂ prefixed (char_of-code c) (read_text-write_text s rest)

abbrev pub write_texts : List String → Bytes
write_texts [] = []
write_texts (s ∷ ss) = write_text s (write_texts ss)

abbrev pub and_then {ℓ κ} : {A : Type ℓ} {B : Type κ} → Option A → (A → Option B) → Option B
and_then none f = none
and_then (some a) f = f a

abbrev put_first : String → Option (List String) → Option (List String)
put_first s none = none
put_first s (some ss) = some (s ∷ ss)

abbrev pub read_texts : ℕ → Bytes → Option (List String)
read_texts zero raw = some []
read_texts (suc n) raw = and_then (read_text raw) λ (s, rest). put_first s (read_texts n rest)

pub read_texts-write_texts : (ss : List String) → read_texts (length ss) (write_texts ss) ≡ some ss
read_texts-write_texts [] = refl
read_texts-write_texts (s ∷ ss) =
    ap (λ r. and_then r λ (t, rest). put_first t (read_texts (length ss) rest))
      (read_text-write_text s (write_texts ss))
    ∙ ap (put_first s) (read_texts-write_texts ss)

abbrev pub texts_of : Envelope → List String
texts_of e =
    e.kind ∷ e.conversation_id ∷ e.from_user_id ∷ e.to_user_id ∷ e.message_id ∷ e.ciphertext
    ∷ e.header ∷ []

abbrev envelope_of : List String → Option Envelope
envelope_of (a ∷ b ∷ c ∷ d ∷ e ∷ f ∷ g ∷ []) = some (record {
  kind = a;
  conversation_id = b;
  from_user_id = c;
  to_user_id = d;
  message_id = e;
  ciphertext = f;
  header = g;
})
envelope_of _ = none

pub write_text_full : (s : String) (rest : Bytes) → write_text s rest ≢ []
write_text_full String.[] rest = λ e. cc
write_text_full (String.◌∷◌ c s) rest = λ e. cc

pub some_inj : (a b : Bytes) → some a ≡ some b → a ≡ b
some_inj a b e = cc

abbrev pub codec : Json
codec = record {
  marshal = λ env. some (write_texts (texts_of env));
  unmarshal = λ raw. and_then (read_texts 7 raw) envelope_of;
  marshals = λ env. (write_texts (texts_of env), refl);
  not_empty = λ env e. write_text_full env.kind _ (some_inj _ _ e);
  unmarshal-marshal = λ env raw e.
      ap (λ r. and_then (read_texts 7 r) envelope_of) (sym (some_inj _ _ e))
      ∙ ap (λ r. and_then r envelope_of) (read_texts-write_texts (texts_of env));
}

-- `n` times the letter x.
abbrev pub unary : ℕ → String
unary zero = String.[]
unary (suc n) = String.◌∷◌ "x" (unary n)

abbrev one_more : Bool → Option ℕ → Option ℕ
one_more false r = none
one_more true none = none
one_more true (some n) = some (suc n)

abbrev read_unary : String → Option ℕ
read_unary String.[] = some 0
read_unary (String.◌∷◌ c s) = one_more (nat_beq (code c) 120) (read_unary s)

pub read_unary-unary : (n : ℕ) → read_unary (unary n) ≡ some n
read_unary-unary zero = refl
read_unary-unary (suc n) = ap (one_more true) (read_unary-unary n)

abbrev pub ids : Uuids
ids = record { parse = read_unary; print = unary; parse-print = read_unary-unary }

abbrev pub queues : Redis
queues = record {
  Store = String → List Bytes;
  rpush = λ k v s j. if k == j then s j ++ v ∷ [] else s j;
  ltrim = λ k n s j. if k == j then last n (s j) else s j;
  expire = λ k ttl s. s;
  lrange = λ k s. s k;
  lrange-rpush = λ k j v s. refl;
  lrange-ltrim = λ k j n s h. refl;
  lrange-expire = λ k j ttl s. refl;
}

abbrev pub letter : Envelope
letter = record {
  kind = "message";
  conversation_id = "xxx";
  from_user_id = "x";
  to_user_id = "xx";
  message_id = "m1";
  ciphertext = "8f";
  header = "h";
}
