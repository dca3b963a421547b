-- ===== src/Routing.antt =====
-- routing/registry.ts and routing/print.ts: which tools a configuration exposes, how they are grouped,
-- and the listing that `--print-tools` prints, as code points. A tool is its name, its namespace and
-- whether it only reads; its schemas and its handler are left out.
pub mod Groups
mod Tests
use zendesk_mcp_server.Base.{
  ℕ, zero, suc, ◌-◌, String, ◌≡◌, refl, sym, ap, ◌∙◌, ◌↔◌, Bool, true, false, not, ◌&&◌, Option,
  none, some, List, [], ◌∷◌, ◌++◌, map, if◌then◌else◌, nat_beq_iff, length, keep, JsKey, ◌==◌,
  number_key, text_key, includes,
}
use zendesk_mcp_server.Base.JsMap
use zendesk_mcp_server.Base.JsMap.{JsMap}
use zendesk_mcp_server.Text.{codes}
use zendesk_mcp_server.Text.Decimal.{decimal}

pub data Namespace : Type 0 where
  tickets help_center users requests preferences : Namespace

abbrev pub namespace_index : Namespace → ℕ
namespace_index tickets = 0
namespace_index help_center = 1
namespace_index users = 2
namespace_index requests = 3
namespace_index preferences = 4

abbrev pub namespace_same : Namespace → Namespace → Bool
namespace_same a b = namespace_index a == namespace_index b

namespace_at : ℕ → Namespace
namespace_at zero = tickets
namespace_at (suc zero) = help_center
namespace_at (suc (suc zero)) = users
namespace_at (suc (suc (suc zero))) = requests
namespace_at _ = preferences

namespace_at-index : (n : Namespace) → namespace_at (namespace_index n) ≡ n
unfolding namespace_at
namespace_at-index tickets = refl
namespace_at-index help_center = refl
namespace_at-index users = refl
namespace_at-index requests = refl
namespace_at-index preferences = refl

pub namespace_same_iff : (a b : Namespace) → (namespace_same a b ≡ true) ↔ (a ≡ b)
namespace_same_iff a b = (
  λ h.
      sym (namespace_at-index a)
      ∙ ap namespace_at ((nat_beq_iff (namespace_index a) (namespace_index b)).0 h)
      ∙ namespace_at-index b,
  λ e. (nat_beq_iff (namespace_index a) (namespace_index b)).1 (ap namespace_index e),
)

instance abbrev pub namespace_key : JsKey Namespace
namespace_key = record { same = namespace_same; same_iff = namespace_same_iff }

pub record ToolDefinition : Type 0 where
  pub name : String
  pub namespace : Namespace
  pub read_only : Bool

pub record FilterOptions : Type 0 where
  pub read_only : Bool
  pub namespaces : Option (List Namespace)
  pub tools : Option (List String)

-- `options.x?.length && !options.x.includes(y)`: an absent or empty list refuses nothing
abbrev pub is_refused {ℓ} : {A : Type ℓ} ⦃key : JsKey A⦄ → Option (List A) → A → Bool
is_refused none a = false
is_refused (some []) a = false
is_refused (some (b ∷ allowed)) a = not (includes (b ∷ allowed) a)

abbrev pub is_exposed : FilterOptions → ToolDefinition → Bool
is_exposed options tool =
    if options.read_only && not tool.read_only
    then false
    else if is_refused options.namespaces tool.namespace
    then false
    else if is_refused options.tools tool.name
    then false
    else true

unfoldable pub filter_tools : List ToolDefinition → FilterOptions → List ToolDefinition
filter_tools all_tools options = keep (is_exposed options) all_tools

abbrev pub or_empty : Option (List ToolDefinition) → List ToolDefinition
or_empty none = []
or_empty (some tools) = tools

-- the loop of `groupByNamespace`
unfoldable pub group_from :
    JsMap Namespace (List ToolDefinition)
    → List ToolDefinition
    → JsMap Namespace (List ToolDefinition)
group_from grouped [] = grouped
group_from grouped (tool ∷ tools) =
    group_from
      (JsMap.put grouped tool.namespace
        (or_empty (JsMap.get grouped tool.namespace) ++ (tool ∷ [])))
      tools

unfoldable pub group_by_namespace : List ToolDefinition → JsMap Namespace (List ToolDefinition)
unfolding group_from
group_by_namespace tools = group_from [] tools

-- the names of the proxy tools, and those of the namespaces
abbrev pub namespace_labels : Namespace → String
namespace_labels tickets = "zendesk_tickets"
namespace_labels help_center = "zendesk_help_center"
namespace_labels users = "zendesk_users"
namespace_labels requests = "zendesk_requests"
namespace_labels preferences = "connector_preferences"

abbrev pub namespace_name : Namespace → String
namespace_name tickets = "tickets"
namespace_name help_center = "help_center"
namespace_name users = "users"
namespace_name requests = "requests"
namespace_name preferences = "preferences"

pub data ToolMode : Type 0 where
  all_mode namespace_mode single_mode : ToolMode

pub record Config : Type 0 where
  pub mode : ToolMode
  pub namespaces : List Namespace
  pub read_only : Bool
  pub tools : Option (List String)

-- `lines.join(separator)`
abbrev pub join : List ℕ → List (List ℕ) → List ℕ
join separator [] = []
join separator (line ∷ []) = line
join separator (line ∷ next ∷ lines) = line ++ separator ++ join separator (next ∷ lines)

abbrev pub tool_line : List ℕ → ToolDefinition → List ℕ
tool_line indent tool =
    indent ++ codes tool.name ++ (if tool.read_only then [] else codes " (write)")

abbrev pub mode_name : ToolMode → String
mode_name all_mode = "all"
mode_name namespace_mode = "namespace"
mode_name single_mode = "single"

abbrev pub tool_filter_part : Option (List String) → List (List ℕ)
tool_filter_part none = []
tool_filter_part (some []) = []
tool_filter_part (some (name ∷ names)) =
    (codes "Tool filter: " ++ join (codes ", ") (map codes (name ∷ names))) ∷ []

unfoldable pub render_header : Config → List ℕ
render_header config = join (codes " | ") (
    (codes "Mode: " ++ codes (mode_name config.mode))
    ∷ (codes "Namespaces: "
        ++ join (codes ", ") (map (λ n. codes (namespace_name n)) config.namespaces))
    ∷ (codes "Read-only: " ++ codes (if config.read_only then "yes" else "no"))
    ∷ tool_filter_part config.tools)

unfoldable pub render_all_mode : List ToolDefinition → List (List ℕ)
unfolding decimal
render_all_mode tools =
    (decimal (length tools) ++ codes " tool(s) exposed individually:")
    ∷ map (tool_line (codes "  ")) tools

-- the loop over the groups
abbrev pub group_lines : JsMap Namespace (List ToolDefinition) → List (List ℕ)
group_lines [] = []
group_lines ((namespace, tools) ∷ grouped) =
    (codes "  " ++ codes (namespace_labels namespace)) ∷ map (tool_line (codes "    - ")) tools
    ++ group_lines grouped

unfoldable pub render_namespace_mode : List ToolDefinition → List (List ℕ)
unfolding decimal group_by_namespace
render_namespace_mode tools =
    (decimal (length (group_by_namespace tools)) ++ codes " proxy tool(s) exposed:")
    ∷ group_lines (group_by_namespace tools)

unfoldable pub render_single_mode : List ToolDefinition → List (List ℕ)
unfolding decimal
render_single_mode tools =
    (codes "1 proxy tool exposed, wrapping " ++ decimal (length tools) ++ codes " operation(s):")
    ∷ codes "  zendesk"
    ∷ map (tool_line (codes "    - ")) tools

unfoldable pub render_body : ToolMode → List ToolDefinition → List (List ℕ)
unfolding render_all_mode render_namespace_mode render_single_mode
render_body all_mode tools = render_all_mode tools
render_body namespace_mode tools = render_namespace_mode tools
render_body single_mode tools = render_single_mode tools

abbrev pub newline : List ℕ
newline = 10 ∷ []

abbrev pub surface_of : Config → List ToolDefinition → List ℕ
surface_of config [] =
    render_header config
    ++ newline
    ++ newline
    ++ codes "No tools exposed. Check --namespace / --tool / --read-only."
surface_of config (tool ∷ tools) =
    join newline (render_header config ∷ [] ∷ render_body config.mode (tool ∷ tools))

unfoldable pub render_tool_surface : Config → List ToolDefinition → List ℕ
unfolding filter_tools render_header render_body
render_tool_surface config tools = surface_of config (
    filter_tools tools (record {
      read_only = config.read_only;
      namespaces = some config.namespaces;
      tools = config.tools;
    }))
