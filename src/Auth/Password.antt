-- ===== src/Auth/Password.antt =====
-- auth/password.go: a password, and the text that is stored in its place. A text is a list of
-- characters here. Argon2, base64 and `Sscanf` are others', and parameters.
use Prim.Native.Char.{Char, code}
pub mod Texts
pub mod Verified
use bully.Prelude.{
  Bool, List, Option, String, [], false, if◌then◌else◌, length, nat_beq, none, not, some, true, ℕ,
  ◌&&◌, ◌*◌, ◌∷◌, ◌≡◌,
}
use bully.Ws.Padding.{Bytes}

-- The texts between the dollar signs: `strings.Split(encoded, "$")`.
abbrev pub is_dollar : Char → Bool
is_dollar c = nat_beq (code c) 36

unfoldable pub onto_first : Char → List String → List String
onto_first c [] = []
onto_first c (part ∷ parts) = String.◌∷◌ c part ∷ parts

unfoldable pub split_dollar : String → List String
unfolding onto_first
split_dollar String.[] = "" ∷ []
split_dollar (String.◌∷◌ c text) =
    let rest = split_dollar text in if is_dollar c then "" ∷ rest else onto_first c rest

unfoldable pub append_text : String → String → String
append_text String.[] t = t
append_text (String.◌∷◌ c s) t = String.◌∷◌ c (append_text s t)

-- Texts with a dollar sign between each two.
unfoldable pub join_dollar : List String → String
unfolding append_text
join_dollar [] = ""
join_dollar (part ∷ []) = part
join_dollar (part ∷ next ∷ parts) = append_text part (append_text "$" (join_dollar (next ∷ parts)))

unfoldable pub has_no_dollar : String → Bool
has_no_dollar String.[] = true
has_no_dollar (String.◌∷◌ c text) = not (is_dollar c) && has_no_dollar text

-- The memory, the time and the threads of `argon2.IDKey`.
pub record Cost : Type 0 where
  pub memory : ℕ
  pub time : ℕ
  pub threads : ℕ

-- The constants at the top of the file.
abbrev pub cost : Cost
cost = record { memory = 64 * 1024; time = 1; threads = 4 }

abbrev pub argon_key_len : ℕ
argon_key_len = 32

-- `argon2.IDKey` and `argon2.Version`, `base64.RawStdEncoding`, and what `fmt` reads and writes.
pub record Hashing : Type 0 where
  pub version : String
  pub id_key : String → Bytes → Cost → ℕ → Bytes
  pub encode_to_string : Bytes → String
  pub decode_string : String → Option Bytes
  pub print_cost : Cost → String
  pub scan_version : String → Bool
  pub scan_cost : String → Option Cost
  pub key_length : (p : String) (salt : Bytes) (c : Cost) (n : ℕ) → length (id_key p salt c n) ≡ n
  pub decodes : (b : Bytes) → decode_string (encode_to_string b) ≡ some b
  pub encoded_plain : (b : Bytes) → has_no_dollar (encode_to_string b) ≡ true
  pub version_plain : has_no_dollar version ≡ true
  pub version_scans : scan_version version ≡ true
  pub cost_plain : (c : Cost) → has_no_dollar (print_cost c) ≡ true
  pub cost_scans : scan_cost (print_cost cost) ≡ some cost

-- The `Sprintf` of `HashPassword`; `version` is the third text, `v=19`.
unfoldable pub encoded_text : Hashing → Bytes → Bytes → String
unfolding join_dollar
encoded_text hs salt hash = join_dollar (
    ""
    ∷ "argon2id"
    ∷ hs.version
    ∷ hs.print_cost cost
    ∷ hs.encode_to_string salt
    ∷ hs.encode_to_string hash
    ∷ [])

-- `HashPassword`; the salt is what `rand.Read` gives, if it gives it.
unfoldable pub hash_password : Hashing → Option Bytes → String → Option String
unfolding encoded_text
hash_password hs none password = none
hash_password hs (some salt) password =
    some (encoded_text hs salt (hs.id_key password salt cost argon_key_len))

-- `subtle.ConstantTimeCompare(a, b) == 1`
unfoldable pub constant_time_compare : Bytes → Bytes → Bool
constant_time_compare [] [] = true
constant_time_compare [] (y ∷ ys) = false
constant_time_compare (x ∷ xs) [] = false
constant_time_compare (x ∷ xs) (y ∷ ys) = nat_beq x y && constant_time_compare xs ys

-- The end of `VerifyPassword`, with what was read of the stored text. argon2.IDKey panics for a time or
-- a parallelism of 0, which no text of `HashPassword` has; then `id_key` stands for nothing.
unfoldable pub compare_key :
    Hashing → String → Option Cost → Option Bytes → Option Bytes → Option Bool
unfolding constant_time_compare
compare_key hs password (some c) (some salt) (some expected) =
    some (constant_time_compare (hs.id_key password salt c (length expected)) expected)
compare_key hs password _ _ _ = none

unfoldable pub verify_parts : Hashing → String → List String → Option Bool
unfolding compare_key
verify_parts hs password (p0 ∷ p1 ∷ p2 ∷ p3 ∷ p4 ∷ p5 ∷ []) =
    if hs.scan_version p2
    then compare_key hs password (hs.scan_cost p3) (hs.decode_string p4) (hs.decode_string p5)
    else none
verify_parts hs password _ = none

-- `VerifyPassword`; an error is `none`.
unfoldable pub verify_password : Hashing → String → String → Option Bool
unfolding split_dollar verify_parts
verify_password hs password encoded = verify_parts hs password (split_dollar encoded)
