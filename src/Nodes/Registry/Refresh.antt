-- ===== src/Nodes/Registry/Refresh.antt =====
-- CheckForUpdates as a whole: what each outcome of the query does to the table.
use remote_console.Prelude.{
  inl, inr, Option-cases, Result-cases, ◌≡◌, false, none, List, [], ◌++◌, ok, arith,
}
use remote_console.Prelude.Text.{Str, str}
use remote_console.Prelude.Map.{get}
use remote_console.Nodes.Smd.{ComponentEndpoint, Response, Http, get_component_endpoints}
use remote_console.Nodes.Discovery.{collect_nodes, current_nodes_from_smd}
use remote_console.Nodes.Registry.{NodesState, check_for_updates}
use remote_console.Nodes.Registry.Exact.{latest, entry, get-update_nodes}

abbrev pub endpoints_url : Str → Str
endpoints_url smd_url = smd_url ++ str "hsm/v2/Inventory/ComponentEndpoints"

-- The query brings a response, of whatever status, whose body decodes to the endpoints.
pub record Answers (http : Http) (smd_url : Str) (eps : List ComponentEndpoint) : Type 0 where
  pub response : Response
  pub content : Str
  pub accepted : http.new_request (endpoints_url smd_url) ≡ none
  pub sent : http.send (endpoints_url smd_url) [] ≡ ok response
  pub read : http.read_all response ≡ ok content
  pub decoded : http.unmarshal content ≡ ok eps

get_component_endpoints-Answers :
    (http : Http) (smd_url : Str) (eps : List ComponentEndpoint)
    → Answers http smd_url eps
    → get_component_endpoints http smd_url ≡ ok eps
unfolding get_component_endpoints
get_component_endpoints-Answers http smd_url eps a = ground arith

current_nodes_from_smd-Answers :
    (http : Http) (smd_url : Str) (eps : List ComponentEndpoint)
    → Answers http smd_url eps
    → current_nodes_from_smd http smd_url ≡ ok (collect_nodes eps)
unfolding current_nodes_from_smd
current_nodes_from_smd-Answers http smd_url eps a =
    ground (arith, get_component_endpoints-Answers http smd_url eps a)

-- Whatever the status code, a reply that decodes replaces the table by what it lists.
pub check_for_updates-Answers :
    (s : NodesState) (now smd_url : Str) (http : Http) (eps : List ComponentEndpoint)
    → Answers http smd_url eps
    → (k : Str)
    → get (check_for_updates s now http smd_url).0.current_nodes k
      ≡ entry (latest (collect_nodes eps) k)
unfolding check_for_updates
check_for_updates-Answers s now smd_url http eps a k = ground (
  arith,
  current_nodes_from_smd-Answers http smd_url eps a,
  get-update_nodes (record s { hardware_update_time = now }) (collect_nodes eps) k,
)

Answers-of_ok :
    (http : Http) (smd_url : Str) (eps : List ComponentEndpoint)
    → get_component_endpoints http smd_url ≡ ok eps
    → Answers http smd_url eps
unfolding get_component_endpoints
Answers-of_ok http smd_url eps h = elim (Option-cases (http.new_request (endpoints_url smd_url))) [
  | inr (e, refused) ↦ absurd (ground arith)
  | inl accepted ↦ elim (Result-cases (http.send (endpoints_url smd_url) [])) [
    | inr (e, unsent) ↦ absurd (ground arith)
    | inl (resp, sent) ↦ elim (Result-cases (http.read_all resp)) [
      | inr (e, unread) ↦ absurd (ground arith)
      | inl (content, read) ↦ record {
        response = resp;
        content = content;
        accepted = accepted;
        sent = sent;
        read = read;
        decoded = ground arith;
      }
    ]
  ]
]

-- A query that fails, at the request, the transport, the body or the decoder, leaves every node and
-- reports no change; the time of the attempt is kept all the same.
check_for_updates_failed :
    (s : NodesState) (now smd_url : Str) (http : Http)
    → ((eps : List ComponentEndpoint) → ¬ Answers http smd_url eps)
    → check_for_updates s now http smd_url ≡ (record s { hardware_update_time = now }, false)
unfolding check_for_updates current_nodes_from_smd
check_for_updates_failed s now smd_url http fails =
    elim (Result-cases (get_component_endpoints http smd_url)) [
      | inl (eps, h) ↦ absurd (fails eps (Answers-of_ok http smd_url eps h))
      | inr (e, h) ↦ ground arith
    ]
