-- ===== src/Keys/View.antt =====
-- What the table of prekeys of keys/handlers.go is for: a map from a user and a number to a key. What
-- an upload makes of such a map, and the laws of the rows.
use bully.Prelude.{
  Bool, Bool-cases, List, Option, String, [], ap, arith, false, fun_ext, if◌then◌else◌, inl, inr,
  nat_beq, none, refl, some, true, ℕ, ◌&&◌, ◌++◌, ◌==◌, ◌∷◌, ◌≡◌, ◌⊎◌,
}
use bully.Db.{any_row, update_where}
use bully.Keys.{OneTimeKey, UploadRequest, is_key}
use bully.Prelude.Int.{beq_ℤ, beq_ℤ-eq, ℤ}
use bully.Tables.{PrekeyRow}

-- A stored key, without the time at which it came.
pub record Entry : Type 0 where
  pub public_key : String
  pub signature : Option String
  pub used : Bool
  pub is_signed : Bool

abbrev pub entry_of : PrekeyRow → Entry
entry_of r = record {
  public_key = r.public_key;
  signature = r.signature;
  used = r.used;
  is_signed = r.is_signed;
}

abbrev pub KeyMap : Type 0
KeyMap = ℕ → ℤ → Option Entry

-- The key of a user and a number.
abbrev pub view : List PrekeyRow → KeyMap
view [] u k = none
view (r ∷ rows) u k = if is_key u k r then some (entry_of r) else view rows u k

abbrev pub put : ℕ → ℤ → Entry → KeyMap → KeyMap
put u k e m v l = if nat_beq v u && beq_ℤ l k then some e else m v l

-- A signed key replaces the text and the signature of the key with its number, and nothing else of it.
abbrev pub signed_over : String → String → Option Entry → Entry
signed_over text signature none = record {
  public_key = text;
  signature = some signature;
  used = false;
  is_signed = true;
}
signed_over text signature (some e) = record e { public_key = text; signature = some signature }

abbrev pub with_signed : ℕ → UploadRequest → KeyMap → KeyMap
with_signed u req m =
    if req.signed_pub_key == ""
    then m
    else put u req.signed_key_id
        (signed_over req.signed_pub_key req.signature (m u req.signed_key_id)) m

abbrev pub unsigned : String → Entry
unsigned text = record { public_key = text; signature = none; used = false; is_signed = false }

-- A one-time key whose number is taken is dropped.
abbrev pub with_key : ℕ → OneTimeKey → KeyMap → KeyMap
with_key u key m = elim (m u key.key_id) [
  | none ↦ put u key.key_id (unsigned key.public_key) m
  | some e ↦ m
]

abbrev pub with_keys : ℕ → List OneTimeKey → KeyMap → KeyMap
with_keys u [] m = m
with_keys u (key ∷ keys) m = with_keys u keys (with_key u key m)

-- What an upload makes of the map.
abbrev pub with_upload : ℕ → UploadRequest → KeyMap → KeyMap
with_upload u req m = with_keys u req.one_time_keys (with_signed u req m)

pub with_key_old :
    (u : ℕ) (key : OneTimeKey) (m : KeyMap) (e : Entry)
    → m u key.key_id ≡ some e
    → m ≡ with_key u key m
with_key_old u key m e h = rw (h, with_key) refl

pub with_key_new :
    (u : ℕ) (key : OneTimeKey) (m : KeyMap)
    → m u key.key_id ≡ none
    → put u key.key_id (unsigned key.public_key) m ≡ with_key u key m
with_key_new u key m h = rw (h, with_key) refl

-- A number of a user is that of a row, or another.
same_or_other :
    (v u : ℕ) (l k : ℤ)
    → ((nat_beq v u && beq_ℤ l k) ≡ true) × (v ≡ u) × (l ≡ k) ⊎ ((nat_beq v u && beq_ℤ l k) ≡ false)
same_or_other v u l k = elim (Bool-cases (nat_beq v u && beq_ℤ l k)) [
  | inl same ↦ inl (same, ground arith, beq_ℤ-eq l k (ground arith))
  | inr other ↦ inr other
]

pub view_absent :
    (u : ℕ) (k : ℤ) (rows : List PrekeyRow)
    → any_row (is_key u k) rows ≡ false
    → view rows u k ≡ none
unfolding any_row
view_absent u k [] h = refl
view_absent u k (r ∷ rows) h = elim (Bool-cases (is_key u k r)) [
  | inl hit ↦ cc (rw hit at h)
  | inr miss ↦ rw miss (view_absent u k rows (rw miss at h))
]

pub view_present :
    (u : ℕ) (k : ℤ) (rows : List PrekeyRow)
    → any_row (is_key u k) rows ≡ true
    → (e : Entry) × (view rows u k ≡ some e)
unfolding any_row
view_present u k [] h = cc
view_present u k (r ∷ rows) h = elim (Bool-cases (is_key u k r)) [
  | inl hit ↦ (entry_of r, rw hit refl)
  | inr miss ↦ rw miss (view_present u k rows (rw miss at h))
]

view-append_other :
    (row : PrekeyRow) (v : ℕ) (l : ℤ) (rows : List PrekeyRow)
    → is_key v l row ≡ false
    → view (rows ++ row ∷ []) v l ≡ view rows v l
view-append_other row v l [] h = rw h refl
view-append_other row v l (r ∷ rows) h =
    ap (λ m. if is_key v l r then some (entry_of r) else m) (view-append_other row v l rows h)

view-append_same :
    (row : PrekeyRow) (u : ℕ) (k : ℤ) (rows : List PrekeyRow)
    → is_key u k row ≡ true
    → any_row (is_key u k) rows ≡ false
    → view (rows ++ row ∷ []) u k ≡ some (entry_of row)
unfolding any_row
view-append_same row u k [] h new = rw h refl
view-append_same row u k (r ∷ rows) h new = elim (Bool-cases (is_key u k r)) [
  | inl hit ↦ cc (rw hit at new)
  | inr miss ↦ rw miss (view-append_same row u k rows h (rw miss at new))
]

-- A row with a new number adds a key, and keeps the others.
pub view-append :
    (row : PrekeyRow) (rows : List PrekeyRow)
    → any_row (is_key row.user_id row.key_id) rows ≡ false
    → view (rows ++ row ∷ []) ≡ put row.user_id row.key_id (entry_of row) (view rows)
view-append row rows new = fun_ext λ v. fun_ext λ l.
    elim (same_or_other v row.user_id l row.key_id) [
      | inl (same, eu, ek) ↦
          let mine : is_key v l row ≡ true = ground (arith, same) in
          rw same (view-append_same row v l rows mine (rw (eu, ek) new))
      | inr other ↦
          let mine : is_key v l row ≡ false = ground (arith, other) in
          rw other (view-append_other row v l rows mine)
    ]

module _ (u : ℕ) (k : ℤ) (text signature : String) where
  abbrev pub resign : PrekeyRow → PrekeyRow
  resign r = record r { public_key = text; signature = some signature }

  view-update_same :
      (rows : List PrekeyRow)
      → any_row (is_key u k) rows ≡ true
      → view (update_where (is_key u k) resign rows) u k
        ≡ some (signed_over text signature (view rows u k))
  unfolding any_row update_where
  view-update_same [] h = cc
  view-update_same (r ∷ rows) h = elim (Bool-cases (is_key u k r)) [
    | inl hit ↦ rw (hit, hit) refl
    | inr miss ↦ rw (miss, miss) (view-update_same rows (rw miss at h))
  ]

  view-update_other :
      (v : ℕ) (l : ℤ) (rows : List PrekeyRow)
      → (nat_beq v u && beq_ℤ l k) ≡ false
      → view (update_where (is_key u k) resign rows) v l ≡ view rows v l
  unfolding update_where
  view-update_other v l [] h = refl
  view-update_other v l (r ∷ rows) h = elim (Bool-cases (is_key u k r)) [
    | inl hit ↦
        let apart : is_key v l r ≡ false = ground (arith, hit, h) in
        rw (hit, apart) (view-update_other v l rows h)
    | inr miss ↦
        rw miss
          (ap (λ m. if is_key v l r then some (entry_of r) else m) (view-update_other v l rows h))
  ]

  -- An UPDATE of the row with a number replaces its key, and keeps the others.
  pub view-update_where :
      (rows : List PrekeyRow)
      → any_row (is_key u k) rows ≡ true
      → view (update_where (is_key u k) resign rows)
        ≡ put u k (signed_over text signature (view rows u k)) (view rows)
  view-update_where rows h = fun_ext λ v. fun_ext λ l. elim (same_or_other v u l k) [
    | inl (same, eu, ek) ↦ rw (same, eu, ek) (view-update_same rows h)
    | inr other ↦ rw other (view-update_other v l rows other)
  ]
