-- ===== src/Ws/Hub/Counted.antt =====
-- The map of connections, as a count of connections that forgets their order and their slices.
use bully.Prelude.{
  List, String, [], ap, arith, eq_iff, fun_ext, if◌then◌else◌, nat_beq, refl, suc, ℕ, ◌&&◌, ◌++◌,
  ◌+◌, ◌-◌, ◌==◌, ◌∙◌, ◌∷◌, ◌≡◌,
}
use bully.Ws.Hub.{Conns, cut, local_conns, register, unregister}
use bully.Ws.Hub.Laws.{local_conns-register, local_conns-unregister}

pub data HubOp : Type 0 where
  registers unregisters : String → ℕ → HubOp

unfoldable pub apply_op : HubOp → Conns → Conns
apply_op (registers u c) conns = register u c conns
apply_op (unregisters u c) conns = unregister u c conns

unfoldable pub apply_ops : List HubOp → Conns → Conns
unfolding apply_op
apply_ops [] conns = conns
apply_ops (op ∷ ops) conns = apply_ops ops (apply_op op conns)

-- What the hub promises: how often a connection is registered for a user.
abbrev pub Counts : Type 0
Counts = String → ℕ → ℕ

-- One more, or one less, which stops at 0, for the user and the connection, and no change elsewhere.
abbrev pub count_op : HubOp → Counts → Counts
count_op (registers u c) n v d = if (u == v) && nat_beq c d then n v d + 1 else n v d
count_op (unregisters u c) n v d = if (u == v) && nat_beq c d then n v d - 1 else n v d

unfoldable pub count_ops : List HubOp → Counts → Counts
count_ops [] n = n
count_ops (op ∷ ops) n = count_ops ops (count_op op n)

abbrev pub occurrences_of : ℕ → List ℕ → ℕ
occurrences_of d [] = 0
occurrences_of d (c ∷ cs) = if nat_beq c d then suc (occurrences_of d cs) else occurrences_of d cs

-- What the map says.
abbrev pub counts : Conns → Counts
counts conns v d = occurrences_of d (local_conns v conns)

occurrences_of-append :
    (d c : ℕ) (cs : List ℕ)
    → occurrences_of d (cs ++ c ∷ [])
      ≡ (if nat_beq c d then occurrences_of d cs + 1 else occurrences_of d cs)
occurrences_of-append d c [] = ground arith
occurrences_of-append d c (b ∷ cs) = ground (arith, occurrences_of-append d c cs)

occurrences_of-cut :
    (d c : ℕ) (cs : List ℕ)
    → occurrences_of d (cut c cs)
      ≡ (if nat_beq c d then occurrences_of d cs - 1 else occurrences_of d cs)
unfolding cut
occurrences_of-cut d c [] = ground arith
occurrences_of-cut d c (b ∷ cs) = ground (arith, occurrences_of-cut d c cs)

counts-apply_op :
    (op : HubOp) (conns : Conns) → counts (apply_op op conns) ≡ count_op op (counts conns)
unfolding apply_op
counts-apply_op (registers u c) conns = fun_ext λ v. fun_ext λ d.
    rw (local_conns-register u v c conns)
      (ground (arith, occurrences_of-append d c (local_conns u conns), eq_iff u v))
counts-apply_op (unregisters u c) conns = fun_ext λ v. fun_ext λ d.
    rw (local_conns-unregister u v c conns)
      (ground (arith, occurrences_of-cut d c (local_conns u conns), eq_iff u v))

-- After any sequence of `Register` and `Unregister`, the map has each connection for each user as often
-- as the same sequence makes it on counts alone, where `Register` adds one for its user and connection
-- and `Unregister` takes one off, if there is one: the slices and the keys of the map are all that the
-- counts forget.
pub counts-apply_ops :
    (ops : List HubOp) (conns : Conns) → counts (apply_ops ops conns) ≡ count_ops ops (counts conns)
unfolding apply_ops count_ops
counts-apply_ops [] conns = refl
counts-apply_ops (op ∷ ops) conns =
    counts-apply_ops ops (apply_op op conns) ∙ ap (count_ops ops) (counts-apply_op op conns)
