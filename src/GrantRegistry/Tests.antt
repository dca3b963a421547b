-- ===== src/GrantRegistry/Tests.antt =====
-- Runs of utils/grant-registry.ts: two grants, of which one is idle.
use zendesk_mcp_server.Base.{
  Run, at_start, then_step, ◌+◌, String, ◌≡◌, refl, none, some, arith, length, number_key, text_key,
}
use zendesk_mcp_server.Base.JsMap
use zendesk_mcp_server.Base.JsMap.{JsMap}
use zendesk_mcp_server.GrantRegistry.{Registry, create_grant_registry, acquire, close, sweep}
use zendesk_mcp_server.GrantRegistry.Ownership.{
  Step, held, closings, acquired, closed_one, entries_owned_once,
}
use zendesk_mcp_server.GrantRegistry.Handout.{entry_of_one_subject}

abbrev one : Registry
one = (acquire create_grant_registry "g" "ann" 0).0

abbrev two : Registry
two = (acquire one "h" "bob" 50).0

abbrev replaced : Registry
replaced = close two "g" (some 0)

two-Run : Run Step create_grant_registry two
two-Run =
    then_step (then_step at_start (acquired create_grant_registry "g" "ann" 0))
      (acquired one "h" "bob" 50)

two_created : two.created ≡ 2
unfolding create_grant_registry acquire JsMap.get JsMap.put
two_created = refl

-- another subject is refused
refused : (acquire two "g" "eve" 60).1 ≡ none
unfolding create_grant_registry acquire JsMap.get JsMap.put
refused = refl

first_call : (acquire create_grant_registry "g" "ann" 0).1 ≡ some 0
unfolding create_grant_registry acquire JsMap.get
first_call = refl

second_call : (acquire two "g" "ann" 60).1 ≡ some 0
unfolding create_grant_registry acquire JsMap.get JsMap.put
second_call = refl

abbrev grant : String
grant = "g"

abbrev owner : String
owner = "ann"

entry_of_one_subject_example : (grant ≡ grant) × (owner ≡ owner)
entry_of_one_subject_example =
    entry_of_one_subject grant grant owner owner 0 60 0 at_start first_call
      (then_step at_start (acquired one "h" "bob" 50)) second_call

replaced_created : replaced.created ≡ 2
unfolding create_grant_registry acquire close JsMap.get JsMap.put JsMap.delete
replaced_created = refl

entries_owned_once_example : held replaced.slots 0 + closings replaced.closed 0 ≡ 1
entries_owned_once_example =
    entries_owned_once 0 (then_step two-Run (closed_one two "g" (some 0)))
      (omega (arith, replaced_created))

swept_away : (JsMap.get (sweep two 60 70).slots "g" ≡ none) × (length (sweep two 60 70).slots ≡ 1)
unfolding create_grant_registry acquire sweep JsMap.get JsMap.put JsMap.delete
swept_away = (refl, refl)
