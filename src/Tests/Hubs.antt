-- ===== src/Tests/Hubs.antt =====
-- Tests of the hub.
-- The user "x" has two connections here, "xx" one.
use bully.Prelude.{
  List, [], if◌then◌else◌, length, nat_beq, refl, to_list, true, ℕ, ◌&&◌, ◌++◌, ◌∷◌, ◌≡◌,
}
use bully.Prelude.Assoc.{lookup}
use bully.Tests.{codec, letter}
use bully.Ws.Conn.{Conn, send}
use bully.Ws.Hub.{Conns, Node, cut, deliver, holds, local_conns, on_published}
use bully.Ws.Hub.Counted.{
  HubOp, apply_ops, count_ops, counts, counts-apply_ops, registers, unregisters,
}
use bully.Ws.Hub.Fanout.{Distinct, deliver_lem, on_published-deliver}
use bully.Ws.Hub.Laws.{NoEmpty}
use bully.Ws.Padding.{Bytes}

abbrev pub three_conns : Conns
three_conns = ("x", 0 ∷ 1 ∷ []) ∷ ("xx", 2 ∷ []) ∷ []

abbrev idle : ℕ → Conn
idle p = record { user_id = "x"; send = [] }

abbrev pub busy_node : Node
busy_node = record { conns = three_conns; heap = idle; published = [] }

abbrev pub empty_node : Node
empty_node = record { conns = []; heap = idle; published = [] }

three-Distinct : Distinct (local_conns letter.to_user_id busy_node.conns)
unfolding local_conns lookup holds
three-Distinct = (refl, tt)

cut_test : cut 0 (0 ∷ 1 ∷ 0 ∷ []) ≡ 1 ∷ 0 ∷ []
unfolding cut
cut_test = refl

deliver_lem_example :
    let m = deliver codec true letter busy_node in
    let here = local_conns letter.to_user_id busy_node.conns in
    (m.conns ≡ busy_node.conns)
    × ((p : ℕ)
        → m.heap p
          ≡ (if holds p here then send codec (busy_node.heap p) letter else busy_node.heap p))
    × (m.published ≡ (
        if nat_beq (length here) 0 && true
        then busy_node.published ++ to_list (codec.marshal letter)
        else busy_node.published))
deliver_lem_example = deliver_lem codec true letter busy_node three-Distinct

nobody_here : local_conns letter.to_user_id empty_node.conns ≡ []
unfolding local_conns lookup
nobody_here = refl

on_published-deliver_example :
    (payload : Bytes) × ((deliver codec true letter empty_node).published
      ≡ empty_node.published ++ payload ∷ [])
    × ((p : ℕ)
        → (on_published codec payload busy_node).heap p ≡ (
            if holds p (local_conns letter.to_user_id busy_node.conns)
            then send codec (busy_node.heap p) letter
            else busy_node.heap p))
on_published-deliver_example =
    on_published-deliver codec letter empty_node busy_node nobody_here three-Distinct

no_empty : NoEmpty []
unfolding lookup
no_empty v = λ e. cc

-- A pointer that is registered twice and unregistered once stays.
abbrev comings : List HubOp
comings = registers "x" 0 ∷ registers "xx" 3 ∷ unregisters "x" 0 ∷ unregisters "xx" 7 ∷ []

counts-apply_ops_example :
    counts (apply_ops comings three_conns) ≡ count_ops comings (counts three_conns)
counts-apply_ops_example = counts-apply_ops comings three_conns
