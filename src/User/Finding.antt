-- ===== src/User/Finding.antt =====
-- Who is found.
use mathlib.Core.List.{Perm, perm_append_comm}
use mathlib.Core.List.Perm
use bully.Prelude.{
  Bool-cases, List, Option, String, [], ap, append-nil, append_assoc, arith, drop, inl, inr, length,
  length-append, length-drop, length-take, map, none, refl, some, subst, sym, take,
  take-append-drop, true, ℕ, ◌++◌, ◌==◌, ◌∙◌, ◌∷◌, ◌≡◌, ◌≤◌, ◌⊎◌,
}
use bully.Auth.Password.{append_text}
use bully.Convo.Listing.{shown}
use bully.Convo.Listing.Visible.{answer_shown, shown_inj}
use bully.Db.{Call, Uuids, World, arrived, rotate, select}
use bully.Db.Calls.{reply_inj, statement_ok}
use bully.Tables.{UserRow}
use bully.User.{Ilike, UserInfo, search, search_users, user_info}
use bully.Ws.Hub.{cut}

arrived_prefix {ℓ} :
    {A : Type ℓ} (b : Option ℕ) (xs : List A) → (rest : List A) × (arrived b xs ++ rest ≡ xs)
arrived_prefix none xs = ([], append-nil xs)
arrived_prefix (some n) xs = (drop n xs, take-append-drop n xs)

arrived_take {ℓ} :
    {A : Type ℓ} (b : Option ℕ) (n : ℕ) (xs : List A)
    → (rest : List A) × Perm (arrived b (take n xs) ++ rest) xs
arrived_take b n xs =
    let (cut, whole) = arrived_prefix b (take n xs) in
    let e =
      sym (append_assoc (arrived b (take n xs)) cut (drop n xs))
      ∙ ap (λ ys. ys ++ drop n xs) whole
      ∙ take-append-drop n xs in
    (cut ++ drop n xs, subst (λ ys. Perm ys xs) (sym e) (Perm.refl xs))

length-arrived {ℓ} :
    {A : Type ℓ} (b : Option ℕ) (xs : List A) (n : ℕ) → length xs ≤ n → length (arrived b xs) ≤ n
length-arrived none xs n h = h
length-arrived (some m) xs n h = omega (arith, length-take m xs)

rotate_perm {ℓ} : {A : Type ℓ} (n : ℕ) (xs : List A) → Perm (rotate n xs) xs
rotate_perm n xs =
    subst (Perm (rotate n xs)) (take-append-drop n xs) (perm_append_comm (drop n xs) (take n xs))

length-arrived-take {ℓ} :
    {A : Type ℓ} (b : Option ℕ) (n : ℕ) (xs ys : List A)
    → length xs ≡ length ys
    → length (arrived b (take n xs)) ≡ length (arrived b (take n ys))
length-arrived-take none n xs ys h = omega (arith, length-take n xs, length-take n ys)
length-arrived-take (some m) n xs ys h = omega (
  arith,
  length-take m (take n xs),
  length-take m (take n ys),
  length-take n xs,
  length-take n ys,
)

-- The users that match the text.
abbrev pub matching : Ilike → String → List UserRow → List UserRow
matching ilike q = select (λ r. ilike r.username (append_text "%" (append_text q "%")))

-- What `Search` shows is nothing for the empty text, and else the users of at most twenty rows of the
-- table, each taken once, whose names match the pattern: all that match if they are not more than twenty,
-- else twenty of them, and fewer only if the connection of its call breaks before; it changes nothing.
pub search_sound :
    (pg : Uuids) (ilike : Ilike) (q : String) (w : World) (infos : List UserInfo)
    → (search pg ilike q w).0 ≡ shown infos
    → (((q == "") ≡ true) × (infos ≡ [])
        ⊎ ((c : Call) × (cs : List Call) × (rows rest : List UserRow) × (w.calls ≡ c ∷ cs)
            × (infos ≡ map (user_info pg) rows)
            × Perm (rows ++ rest) (matching ilike q w.db.users)
            × (length rows ≤ 20)
            × (length rows
                ≡ length (arrived c.break_after (take 20 (matching ilike q w.db.users))))))
      × ((search pg ilike q w).1.db ≡ w.db)
unfolding search search_users
search_sound pg ilike q w infos h = elim (Bool-cases (q == "")) [
  | inl empty ↦ (inl (empty, sym (shown_inj _ _ (rw empty at h))), rw empty refl)
  | inr some_text ↦
      let all = matching ilike q w.db.users in
      let (c, cs, calls, fc, row, after) =
        statement_ok (search_users pg ilike q) w infos (answer_shown _ infos (rw some_text at h)) in
      let found_rows = rotate c.pick all in
      let (rest, covered) = arrived_take c.break_after 20 found_rows in
      let rows = arrived c.break_after (take 20 found_rows) in
      (
        inr (
          c,
          cs,
          rows,
          rest,
          calls,
          sym (reply_inj _ _ row),
          Perm.trans covered (rotate_perm c.pick all),
          length-arrived c.break_after (take 20 found_rows) 20
              (omega (arith, length-take 20 found_rows)),
          length-arrived-take c.break_after 20 found_rows all (
              omega (
                arith,
                length-append (drop c.pick all) (take c.pick all),
                length-take c.pick all,
                length-drop c.pick all,
              )),
        ),
        rw some_text (ap (λ x. x.db) after),
      )
]
