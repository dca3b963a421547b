-- ===== src/Routing/Tests.antt =====
-- Runs of routing/registry.ts and routing/print.ts on three tools.
use zendesk_mcp_server.Base.{
  ℕ, String, ◌≡◌, refl, Bool, true, false, none, some, List, [], ◌∷◌, ◌++◌, length, number_key,
  text_key,
}
use zendesk_mcp_server.Base.JsMap
use zendesk_mcp_server.Text.{codes}
use zendesk_mcp_server.Routing.{
  Namespace, tickets, users, namespace_key, ToolDefinition, FilterOptions, filter_tools,
  group_by_namespace, namespace_mode, Config, render_tool_surface,
}
use zendesk_mcp_server.Routing.Groups.{extended, of_namespace, get-group_by_namespace}

abbrev tool : String → Namespace → Bool → ToolDefinition
tool name namespace read_only = record { name = name; namespace = namespace; read_only = read_only }

abbrev all_tools : List ToolDefinition
all_tools =
    tool "get_ticket" tickets true ∷ tool "get_user" users true ∷ tool "close" tickets false ∷ []

abbrev config : Config
config = record {
  mode = namespace_mode;
  namespaces = tickets ∷ users ∷ [];
  read_only = false;
  tools = some ("get_ticket" ∷ "close" ∷ []);
}

abbrev listing : List ℕ
listing =
    codes
      "Mode: namespace | Namespaces: tickets, users | Read-only: no | Tool filter: get_ticket, close"
    ++ 10 ∷ 10 ∷ codes "1 proxy tool(s) exposed:"
    ++ 10 ∷ codes "  zendesk_tickets"
    ++ 10 ∷ codes "    - get_ticket"
    ++ 10 ∷ codes "    - close (write)"

printed : render_tool_surface config all_tools ≡ listing
unfolding render_tool_surface JsMap.get JsMap.put
printed = refl

abbrev reading : FilterOptions
reading = record { read_only = true; namespaces = none; tools = none }

only_reading : length (filter_tools all_tools reading) ≡ 2
unfolding filter_tools
only_reading = refl

get-group_by_namespace_example :
    JsMap.get (group_by_namespace (filter_tools all_tools reading)) tickets
    ≡ extended none (of_namespace tickets (filter_tools all_tools reading))
get-group_by_namespace_example = get-group_by_namespace all_tools reading tickets
