-- ===== src/Auth/Password/Verified.antt =====
-- A password and its stored text.
use bully.Prelude.{
  Bool, Bool-cases, String, [], ap, ap₂, arith, inl, inr, nat_beq, nat_beq_iff, refl, some, true,
  ◌↔◌, ◌∙◌, ◌∷◌, ◌≡◌,
}
use bully.Auth.Password.{
  Hashing, argon_key_len, compare_key, constant_time_compare, cost, encoded_text, has_no_dollar,
  hash_password, split_dollar, verify_parts, verify_password,
}
use bully.Auth.Password.Texts.{split_dollar-join_dollar}
use bully.Ws.Padding.{Bytes}

constant_time_compare_eq : (a b : Bytes) → constant_time_compare a b ≡ true → a ≡ b
unfolding constant_time_compare
constant_time_compare_eq [] [] h = refl
constant_time_compare_eq [] (y ∷ ys) h = cc
constant_time_compare_eq (x ∷ xs) [] h = cc
constant_time_compare_eq (x ∷ xs) (y ∷ ys) h = elim (Bool-cases (nat_beq x y)) [
  | inl same ↦
      ap₂ (λ z zs. z ∷ zs) ((nat_beq_iff x y).0 same)
        (constant_time_compare_eq xs ys (rw same at h))
  | inr other ↦ cc (rw other at h)
]

constant_time_compare_refl : (a : Bytes) → constant_time_compare a a ≡ true
unfolding constant_time_compare
constant_time_compare_refl [] = refl
constant_time_compare_refl (x ∷ xs) = ground (arith, constant_time_compare_refl xs)

module _ (hs : Hashing) where
  split_encoded :
      (salt hash : Bytes)
      → split_dollar (encoded_text hs salt hash)
        ≡ ""
          ∷ "argon2id"
          ∷ hs.version
          ∷ hs.print_cost cost
          ∷ hs.encode_to_string salt
          ∷ hs.encode_to_string hash
          ∷ []
  unfolding encoded_text has_no_dollar
  split_encoded salt hash =
      split_dollar-join_dollar ""
        ("argon2id"
          ∷ hs.version
          ∷ hs.print_cost cost
          ∷ hs.encode_to_string salt
          ∷ hs.encode_to_string hash
          ∷ [])
        (
          refl,
          (
            refl,
            (
              hs.version_plain,
              (hs.cost_plain cost, (hs.encoded_plain salt, (hs.encoded_plain hash, tt))),
            ),
          ),
        )

  -- What `VerifyPassword` makes of a text of `HashPassword`.
  verify_encoded :
      (salt : Bytes) (password other : String)
      → verify_password hs other (encoded_text hs salt (hs.id_key password salt cost argon_key_len))
        ≡ some (
            constant_time_compare
              (hs.id_key other salt cost argon_key_len)
              (hs.id_key password salt cost argon_key_len))
  unfolding verify_password verify_parts compare_key
  verify_encoded salt password other =
      let key = hs.id_key password salt cost argon_key_len in
      rw
        (
          split_encoded salt key,
          hs.version_scans,
          hs.cost_scans,
          hs.decodes salt,
          hs.decodes key,
          hs.key_length password salt cost argon_key_len,
        )
        refl

-- `VerifyPassword` reads without error what `HashPassword` has written, and accepts a password just
-- when it has the key of the hashed one, so the hashed one itself.
pub verify_password-hash_password :
    (hs : Hashing) (salt : Bytes) (password other : String)
    → (stored : String) × (accepted : Bool) × (hash_password hs (some salt) password ≡ some stored)
      × (verify_password hs password stored ≡ some true)
      × (verify_password hs other stored ≡ some accepted)
      × ((accepted ≡ true)
          ↔ (hs.id_key other salt cost argon_key_len ≡ hs.id_key password salt cost argon_key_len))
unfolding hash_password
verify_password-hash_password hs salt password other =
    let key = hs.id_key password salt cost argon_key_len in
    let asked = hs.id_key other salt cost argon_key_len in
    (
      encoded_text hs salt key,
      constant_time_compare asked key,
      refl,
      verify_encoded hs salt password password ∙ ap some (constant_time_compare_refl key),
      verify_encoded hs salt password other,
      (constant_time_compare_eq asked key, λ same. rw same (constant_time_compare_refl key)),
    )
