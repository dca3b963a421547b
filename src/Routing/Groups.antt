-- ===== src/Routing/Groups.antt =====
-- What `groupByNamespace` of routing/registry.ts holds for each namespace.
use zendesk_mcp_server.Base.{
  ◌≡◌, refl, ap, ◌∙◌, inl, inr, Option, none, some, List, [], ◌∷◌, ◌++◌, Bool-cases, keep, ◌==◌,
  number_key, text_key, ==_iff,
}
use mathlib.Core.List.{append_assoc}
use zendesk_mcp_server.Base.JsMap
use zendesk_mcp_server.Base.JsMap.{JsMap, get-put}
use zendesk_mcp_server.Routing.{
  Namespace, namespace_key, ToolDefinition, FilterOptions, filter_tools, or_empty, group_from,
  group_by_namespace,
}

-- A group with more tools at its end; none is no group.
abbrev pub extended :
    Option (List ToolDefinition) → List ToolDefinition → Option (List ToolDefinition)
extended group [] = group
extended group (tool ∷ tools) = some (or_empty group ++ (tool ∷ tools))

abbrev pub of_namespace : Namespace → List ToolDefinition → List ToolDefinition
of_namespace namespace = keep (λ tool. tool.namespace == namespace)

extended-step :
    (group : Option (List ToolDefinition)) (tool : ToolDefinition) (tools : List ToolDefinition)
    → extended (some (or_empty group ++ (tool ∷ []))) tools ≡ extended group (tool ∷ tools)
extended-step group tool [] = refl
extended-step group tool (next ∷ tools) = rw append_assoc

get-group_from :
    (tools : List ToolDefinition) (grouped : JsMap Namespace (List ToolDefinition))
    (namespace : Namespace)
    → JsMap.get (group_from grouped tools) namespace
      ≡ extended (JsMap.get grouped namespace) (of_namespace namespace tools)
unfolding group_from
get-group_from [] grouped namespace = refl
get-group_from (tool ∷ tools) grouped namespace =
    let group = or_empty (JsMap.get grouped tool.namespace) ++ (tool ∷ []) in
    let rest = get-group_from tools (JsMap.put grouped tool.namespace group) namespace in
    elim (Bool-cases (tool.namespace == namespace)) [
      | inl same ↦
          let e : tool.namespace ≡ namespace = (==_iff tool.namespace namespace).0 same in
          rest
          ∙ rw (get-put grouped tool.namespace namespace group, same)
              (extended-step (JsMap.get grouped tool.namespace) tool (of_namespace namespace tools)
                ∙ ap (λ n. extended (JsMap.get grouped n) (tool ∷ of_namespace namespace tools)) e)
      | inr other ↦ rest ∙ rw (get-put grouped tool.namespace namespace group, other)
    ]

-- Grouping the tools that a configuration exposes loses none and adds none: a namespace has a group
-- exactly if it has exposed tools, and the group holds these, in their order.
pub get-group_by_namespace :
    (all_tools : List ToolDefinition) (options : FilterOptions) (namespace : Namespace)
    → JsMap.get (group_by_namespace (filter_tools all_tools options)) namespace
      ≡ extended none (of_namespace namespace (filter_tools all_tools options))
unfolding group_by_namespace JsMap.get
get-group_by_namespace all_tools options namespace =
    get-group_from (filter_tools all_tools options) [] namespace
