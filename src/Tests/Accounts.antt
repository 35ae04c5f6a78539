-- ===== src/Tests/Accounts.antt =====
-- Tests of the accounts and of the passwords.
use Prim.Native.Char.{code}
use bully.Prelude.{
  Bool, List, Option, String, [], ap, arith, false, length, nat_beq, none, refl, some, suc, sym,
  true, zero, ℕ, ◌*◌, ◌+◌, ◌==◌, ◌↔◌, ◌∙◌, ◌∷◌, ◌≡◌,
}
use bully.Auth.{Claims, Tokens, middleware, passed}
use bully.Auth.Account.{
  AuthResponse, RegisterRequest, Signing, entered, insert_user, match_username, open_session,
  select_user, trim_space,
}
use bully.Auth.Account.Entry.{login_sound, new_session, with_session}
use bully.Auth.Account.Handlers.{login, register}
use bully.Auth.Account.Names.{IsNamed}
use bully.Auth.Account.Trip.{bearer, middleware-login}
use bully.Auth.Password.{
  Hashing, argon_key_len, cost, encoded_text, has_no_dollar, hash_password, verify_password,
}
use bully.Auth.Password.Verified.{verify_password-hash_password}
use bully.Db.{
  Call, World, answer, any_row, done, first_row, issue, second, select, statement, with_uuid,
}
use bully.Session.{create, inactivity_of, insert_session}
use bully.Tables.{Db, UserRow}
use bully.Tests.{and_then, ids, read_texts, read_texts-write_texts, unary, write_texts}
use bully.Tests.Sessions.{call_at, calm, day, tables}

abbrev cut_at : ℕ → List ℕ → List ℕ
cut_at zero xs = []
cut_at (suc n) [] = 0 ∷ cut_at n []
cut_at (suc n) (x ∷ xs) = x ∷ cut_at n xs

pub length-cut_at : (n : ℕ) (xs : List ℕ) → length (cut_at n xs) ≡ n
length-cut_at zero xs = refl
length-cut_at (suc n) [] = ap suc (length-cut_at n [])
length-cut_at (suc n) (x ∷ xs) = ap suc (length-cut_at n xs)

abbrev codes : String → List ℕ
codes String.[] = []
codes (String.◌∷◌ c s) = code c ∷ codes s

-- Each byte as so many letters x, ended by a letter y.
abbrev write_byte : ℕ → String → String
write_byte zero rest = String.◌∷◌ "y" rest
write_byte (suc n) rest = String.◌∷◌ "x" (write_byte n rest)

abbrev write_bytes : List ℕ → String
write_bytes [] = ""
write_bytes (n ∷ ns) = write_byte n (write_bytes ns)

abbrev count_up : Bool → Option (List ℕ) → Option (List ℕ)
count_up is_x none = none
count_up false (some ns) = some (0 ∷ ns)
count_up true (some []) = none
count_up true (some (n ∷ ns)) = some (suc n ∷ ns)

abbrev read_bytes : String → Option (List ℕ)
read_bytes String.[] = some []
read_bytes (String.◌∷◌ c s) = count_up (nat_beq (code c) 120) (read_bytes s)

read-write_byte :
    (n : ℕ) (rest : String) (ns : List ℕ)
    → read_bytes rest ≡ some ns
    → read_bytes (write_byte n rest) ≡ some (n ∷ ns)
read-write_byte zero rest ns h = ap (count_up false) h
read-write_byte (suc n) rest ns h = ap (count_up true) (read-write_byte n rest ns h)

pub read-write_bytes : (ns : List ℕ) → read_bytes (write_bytes ns) ≡ some ns
read-write_bytes [] = refl
read-write_bytes (n ∷ ns) = read-write_byte n (write_bytes ns) ns (read-write_bytes ns)

plain_byte :
    (n : ℕ) (rest : String) → has_no_dollar rest ≡ true → has_no_dollar (write_byte n rest) ≡ true
unfolding has_no_dollar
plain_byte zero rest h = h
plain_byte (suc n) rest h = plain_byte n rest h

pub plain_bytes : (ns : List ℕ) → has_no_dollar (write_bytes ns) ≡ true
unfolding has_no_dollar
plain_bytes [] = refl
plain_bytes (n ∷ ns) = plain_byte n (write_bytes ns) (plain_bytes ns)

pub version_without : has_no_dollar "v=19" ≡ true
unfolding has_no_dollar
version_without = refl

pub cost_without : has_no_dollar "m" ≡ true
unfolding has_no_dollar
cost_without = refl

-- The key is the password itself, cut to the length.
abbrev pub toy : Hashing
toy = record {
  version = "v=19";
  id_key = λ password salt c n. cut_at n (codes password);
  encode_to_string = write_bytes;
  decode_string = read_bytes;
  print_cost = λ c. "m";
  scan_version = λ text. text == "v=19";
  scan_cost = λ text. some cost;
  key_length = λ password salt c n. length-cut_at n (codes password);
  decodes = read-write_bytes;
  encoded_plain = plain_bytes;
  version_plain = version_without;
  version_scans = refl;
  cost_plain = λ c. cost_without;
  cost_scans = refl;
}

verify_password-hash_password_example :
    (stored : String) × (accepted : Bool) × (hash_password toy (some (1 ∷ [])) "secret"
      ≡ some stored)
    × (verify_password toy "secret" stored ≡ some true)
    × (verify_password toy "guess" stored ≡ some accepted)
    × ((accepted ≡ true) ↔ (
        toy.id_key "guess" (1 ∷ []) cost argon_key_len
        ≡ toy.id_key "secret" (1 ∷ []) cost argon_key_len))
verify_password-hash_password_example = verify_password-hash_password toy (1 ∷ []) "secret" "guess"

abbrev pub sign : Signing
sign cl = some "t"

abbrev request : RegisterRequest
request = record {
  username = " ann_2 ";
  password = "long enough";
  device_name = "";
  platform = "ios";
}

ann_fits : IsNamed tables.users
unfolding match_username any_row
ann_fits = (refl, refl, tt)

-- The name is trimmed, and a name that is taken turns away.
registered :
    (register ids toy sign (some (1 ∷ [])) (some request) calm).0
    ≡ entered 201 (record { token = "t"; user_id = unary 9; username = "ann_2" })
unfolding register trim_space match_username hash_password insert_user create insert_session
    open_session statement issue answer with_uuid any_row
registered = refl

abbrev pub stored_users : Db
stored_users = record tables {
  users =
      record {
        id = 1;
        username = "ann";
        password_hash = encoded_text toy (1 ∷ []) (cut_at argon_key_len (codes "secret"));
        session_inactivity_seconds = 3600;
      }
      ∷ [];
}

abbrev pub ann_logs_in : RegisterRequest
ann_logs_in = record { username = "ann"; password = "secret"; device_name = ""; platform = "ios" }

abbrev login_world : World
login_world = record { db = stored_users; calls = call_at day done ∷ call_at day done ∷ [] }

abbrev let_in : AuthResponse
let_in = record { token = "t"; user_id = "x"; username = "ann" }

logged_in : (login ids toy sign (some ann_logs_in) login_world).0 ≡ entered 200 let_in
unfolding login select_user verify_password encoded_text create insert_session open_session
    statement issue answer with_uuid any_row select first_row
logged_in = refl

login_sound_example :
    (r : UserRow) × (rest : List UserRow) × (first second : Call) × (cs : List Call)
    × (login_world.calls ≡ first ∷ second ∷ cs)
    × (select (λ q. q.username == "ann") stored_users.users ≡ r ∷ rest)
    × (verify_password toy "secret" r.password_hash ≡ some true)
    × (◌≡◌ {A = ℕ} 200 200)
    × (sign (record {
      user_id = ids.print r.id;
      username = "ann";
      session_id = ids.print second.fresh;
    })
        ≡ some "t")
    × (let_in.user_id ≡ ids.print r.id)
    × (any_row (λ s. nat_beq s.id second.fresh) stored_users.sessions ≡ false)
    × ((login ids toy sign (some ann_logs_in) login_world).1.db
        ≡ with_session (new_session r.id ann_logs_in second.fresh second.now) stored_users)
login_sound_example = login_sound ids toy sign ann_logs_in login_world 200 let_in logged_in

-- A token that holds the claims in clear.
abbrev texts_of_claims : Claims → List String
texts_of_claims cl = cl.user_id ∷ cl.username ∷ cl.session_id ∷ []

abbrev claims_of : List String → Option Claims
claims_of (a ∷ b ∷ c ∷ []) = some (record { user_id = a; username = b; session_id = c })
claims_of _ = none

abbrev clear_token : Claims → String
clear_token cl = write_bytes (write_texts (texts_of_claims cl))

abbrev sign_clear : Signing
sign_clear cl = some (clear_token cl)

abbrev parse_clear : Tokens
parse_clear text = and_then (read_bytes text) λ raw. and_then (read_texts 3 raw) claims_of

parse-clear_token : (cl : Claims) → parse_clear (clear_token cl) ≡ some cl
parse-clear_token cl =
    ap (λ r. and_then r λ raw. and_then (read_texts 3 raw) claims_of)
      (read-write_bytes (write_texts (texts_of_claims cl)))
    ∙ ap (λ r. and_then r claims_of) (read_texts-write_texts (texts_of_claims cl))

same_text : (a b : String) → some a ≡ some b → a ≡ b
same_text a b h = cc

reads_signed : (cl : Claims) (t : String) → sign_clear cl ≡ some t → parse_clear t ≡ some cl
reads_signed cl t h = ap parse_clear (sym (same_text (clear_token cl) t h)) ∙ parse-clear_token cl

abbrev let_in_clear : AuthResponse
let_in_clear = record {
  token = clear_token (record { user_id = "x"; username = "ann"; session_id = unary 9 });
  user_id = "x";
  username = "ann";
}

logged_in_clear :
    (login ids toy sign_clear (some ann_logs_in) login_world).0 ≡ entered 200 let_in_clear
unfolding login select_user verify_password encoded_text create insert_session open_session
    statement issue answer with_uuid any_row select first_row
logged_in_clear = refl

policy_of_ann : inactivity_of 1 stored_users.users ≡ some 3600
unfolding inactivity_of
policy_of_ann = refl

middleware-login_example :
    let after = (login ids toy sign_clear (some ann_logs_in) login_world).1.db in
    (middleware ids parse_clear (bearer let_in_clear.token) (record {
      db = after;
      calls = call_at (day + 3600 * second) done ∷ call_at (2 * day) done ∷ [];
    })).0
    ≡ passed (record { user_id = "x"; username = "ann"; session_id = ids.print 9 })
middleware-login_example =
    middleware-login ids toy sign_clear parse_clear ann_logs_in stored_users (call_at day done)
      (call_at day done) (call_at (day + 3600 * second) done) (call_at (2 * day) done) [] [] 1 200
      3600 let_in_clear reads_signed logged_in_clear refl policy_of_ann refl refl (omega arith)
