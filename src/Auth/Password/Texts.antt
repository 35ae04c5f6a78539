-- ===== src/Auth/Password/Texts.antt =====
-- Splitting a text that was joined.
use bully.Prelude.{All, Bool-cases, List, String, [], ap, inl, inr, refl, true, ◌∙◌, ◌∷◌, ◌≡◌}
use bully.Auth.Password.{
  append_text, has_no_dollar, is_dollar, join_dollar, onto_first, split_dollar,
}

onto_first-append :
    (part s : String)
    → has_no_dollar part ≡ true
    → split_dollar (append_text part (append_text "$" s)) ≡ part ∷ split_dollar s
unfolding has_no_dollar split_dollar append_text onto_first
onto_first-append String.[] s h = refl
onto_first-append (String.◌∷◌ c part) s h = elim (Bool-cases (is_dollar c)) [
  | inl dollar ↦ cc (rw dollar at h)
  | inr plain ↦ rw (plain, onto_first-append part s (rw plain at h)) refl
]

split_last : (part : String) → has_no_dollar part ≡ true → split_dollar part ≡ part ∷ []
unfolding has_no_dollar split_dollar onto_first
split_last String.[] h = refl
split_last (String.◌∷◌ c part) h = elim (Bool-cases (is_dollar c)) [
  | inl dollar ↦ cc (rw dollar at h)
  | inr plain ↦ rw (plain, split_last part (rw plain at h)) refl
]

pub split_dollar-join_dollar :
    (part : String) (parts : List String)
    → All (λ p. has_no_dollar p ≡ true) (part ∷ parts)
    → split_dollar (join_dollar (part ∷ parts)) ≡ part ∷ parts
unfolding join_dollar
split_dollar-join_dollar part [] h = split_last part h.0
split_dollar-join_dollar part (next ∷ parts) h =
    onto_first-append part (join_dollar (next ∷ parts)) h.0
    ∙ ap (λ rest. part ∷ rest) (split_dollar-join_dollar next parts h.1)
