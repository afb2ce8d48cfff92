-- ===== src/Console/Handlers/Answers.antt =====
-- The list of consoles that a client gets.
use remote_console.Prelude.{
  ◌≡◌, ◌∙◌, ap, length, ◌^◌, ◌<◌, refl, ◌↔◌, none, some, List, [], ◌∷◌, In, arith,
}
use remote_console.Prelude.Text.{==_iff, ==-refl}
use remote_console.Prelude.Int.{pos}
use remote_console.Prelude.Strings.{atoi, itoa}
use remote_console.Prelude.Decimal.{atoi-itoa}
use remote_console.Prelude.Map.{get}
use remote_console.Nodes.Info.{NodeConsoleInfo}
use remote_console.Nodes.Registry.{NodeMap, NodesState, current_nodes, copy_nodes}
use remote_console.Nodes.Registry.Invariant.{IsTable}
use remote_console.Nodes.Registry.Copies.{length-current_nodes, copy_nodes-get, copy_nodes-IsTable}
use remote_console.Nodes.Ids.{IsTable-tail}
use remote_console.Console.Handlers.{
  get_current_health, consoles, collect_consoles, do_consoles, send_response_json, status_ok,
}

-- The loop collects the nodes that the table holds, each under its id.
IsCollected : NodeMap → List NodeConsoleInfo → Type 0
IsCollected m infos =
    (collect_consoles m ≡ some infos)
    × ((nci : NodeConsoleInfo) → In nci infos ↔ (get m nci.id ≡ some (some nci)))

collect_consoles-IsCollected :
    (m : NodeMap) → IsTable m → (infos : List NodeConsoleInfo) × IsCollected m infos
unfolding collect_consoles get IsCollected
collect_consoles-IsCollected [] t = ([], (refl, λ nci. ground arith))
collect_consoles-IsCollected ((k, p) ∷ nodes) t =
    let (first, e, id) = t.keyed k p (rw (==-refl k) refl) in
    let (infos, (collected, iff)) = collect_consoles-IsCollected nodes (IsTable-tail k p nodes t) in
    (
      first ∷ infos,
      (
        rw (e, collected) refl,
        λ nci. ground (arith, e, id, iff nci, t.distinct.0, ==_iff k nci.id),
      ),
    )

-- From a well-formed node table, the reply lists exactly the nodes that the table holds under their
-- ids, and no nil pointer is met.
pub do_consoles_iff :
    (s : NodesState)
    → IsTable s.current_nodes
    → (infos : List NodeConsoleInfo) × (do_consoles s
        ≡ some (send_response_json none status_ok (consoles (record { consoles = infos }))))
      × ((nci : NodeConsoleInfo) → In nci infos ↔ (get s.current_nodes nci.id ≡ some (some nci)))
unfolding do_consoles IsCollected current_nodes get
do_consoles_iff s t =
    let m = copy_nodes s.current_nodes [] in
    let (infos, (collected, iff)) =
      collect_consoles-IsCollected m (copy_nodes-IsTable s.current_nodes t) in
    (
      infos,
      rw collected refl,
      λ nci. ground (arith, iff nci, copy_nodes-get s.current_nodes [] nci.id t.distinct),
    )

-- The number of consoles in the reply of a health check, read as strconv.Atoi reads it, is the number
-- of nodes in the table, when that is well formed and the number fits an int.
pub number_consoles-atoi :
    (s : NodesState)
    → IsTable s.current_nodes
    → length s.current_nodes < 2 ^ 63
    → atoi (get_current_health s).number_consoles ≡ some (pos (length s.current_nodes))
unfolding get_current_health
number_consoles-atoi s t h =
    let same = length-current_nodes s t.distinct in
    ap (λ n. atoi (itoa (pos n))) same ∙ atoi-itoa (length s.current_nodes) h
