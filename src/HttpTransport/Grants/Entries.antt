-- ===== src/HttpTransport/Grants/Entries.antt =====
-- The entries of the grants of transports/http.ts: whose tokens they hold, and what they count.
use zendesk_mcp_server.Base.{
  ℕ, ◌+◌, ◌<◌, String, ◌≡◌, sym, ◌∙◌, inl, inr, ◌&&◌, none, some, [], ◌∷◌, arith, nat_beq_iff,
  Bool-cases, ◌==◌, number_key, text_key,
}
use mathlib.Core.Path.{subst}
use zendesk_mcp_server.Base.JsMap
use zendesk_mcp_server.Base.JsMap.{
  JsMap, IsKeyed, IsKeyed-put, get-put_cases, get-put_self, get-put_other, delete_absent,
}
use zendesk_mcp_server.AuthServer.Revocation.{VerifiedAccessToken}
use zendesk_mcp_server.GrantRegistry.{Slot, Registry}
use zendesk_mcp_server.HttpTransport.{Surface}
use zendesk_mcp_server.HttpTransport.Grants.{GrantEntry, Request, Grants, grant_key, one_if}
use zendesk_mcp_server.HttpTransport.Grants.Steps.{IsWithin}

-- how many counted requests run on an entry
abbrev pub running : JsMap ℕ Request → ℕ → ℕ
running [] e = 0
running ((q, request) ∷ m) e = one_if (request.is_counted && (request.entry == e)) + running m e

pub running-put_fresh :
    (m : JsMap ℕ Request) (q : ℕ) (request : Request) (e : ℕ)
    → JsMap.get m q ≡ none
    → running (JsMap.put m q request) e
      ≡ running m e + one_if (request.is_counted && (request.entry == e))
unfolding JsMap.put JsMap.get
running-put_fresh [] q request e h = omega arith
running-put_fresh ((j, r) ∷ m) q request e h = ground (arith, running-put_fresh m q request e)

pub running-delete :
    (m : JsMap ℕ Request) (q : ℕ) (request : Request) (e : ℕ)
    → IsKeyed m
    → JsMap.get m q ≡ some request
    → running (JsMap.delete m q) e + one_if (request.is_counted && (request.entry == e))
      ≡ running m e
unfolding JsMap.get JsMap.delete
running-delete [] q request e keyed h = cc
running-delete ((j, r) ∷ m) q request e keyed h =
    ground (arith, running-delete m q request e keyed.1, delete_absent m q, nat_beq_iff j q)

module _ (Accepted : Surface → VerifiedAccessToken → Type 0) where
  -- the entry's Zendesk token came with a token of its own user, grant and surface
  abbrev pub HasOwnToken : GrantEntry → Type 0
  HasOwnToken entry =
      (surface : Surface) × (token : VerifiedAccessToken) × Accepted surface token
      × (grant_key surface token.grant_id ≡ entry.key)
      × (token.subject ≡ entry.subject)
      × (token.zendesk_access_token ≡ entry.zendesk_token)

  abbrev pub IsEntryOf : JsMap ℕ GrantEntry → ℕ → String → String → Type 0
  IsEntryOf entries e key subject =
      (entry : GrantEntry) × (JsMap.get entries e ≡ some entry)
      × (entry.key ≡ key)
      × (entry.subject ≡ subject)

  pub record IsTracked (s : Grants) : Type 0 where
    pub keyed : IsKeyed s.requests
    pub past : (q : ℕ) (request : Request) → JsMap.get s.requests q ≡ some request → q < s.asked
    pub counted :
        (e : ℕ) (entry : GrantEntry)
        → JsMap.get s.entries e ≡ some entry
        → entry.in_flight ≡ running s.requests e
    pub unknown : (e : ℕ) → JsMap.get s.entries e ≡ none → running s.requests e ≡ 0
    pub known :
        (q : ℕ) (request : Request)
        → JsMap.get s.requests q ≡ some request
        → IsEntryOf s.entries request.entry request.key request.subject
    pub slots :
        (g : String) (slot : Slot)
        → JsMap.get s.registry.slots g ≡ some slot
        → IsEntryOf s.entries slot.entry g slot.subject
    pub young :
        (e : ℕ) (entry : GrantEntry) → JsMap.get s.entries e ≡ some entry → e < s.registry.created
    pub own : (e : ℕ) (entry : GrantEntry) → JsMap.get s.entries e ≡ some entry → HasOwnToken entry

  -- An entry's key and subject stay.
  pub put-IsEntryOf :
      (entries : JsMap ℕ GrantEntry) (n : ℕ) (new : GrantEntry) (e : ℕ) (key subject : String)
      → ((old : GrantEntry)
          → JsMap.get entries n ≡ some old
          → (new.key ≡ old.key) × (new.subject ≡ old.subject))
      → IsEntryOf entries e key subject
      → IsEntryOf (JsMap.put entries n new) e key subject
  put-IsEntryOf entries n new e key subject same (entry, at, a, b) = elim (Bool-cases (n == e)) [
    | inl here ↦
        let n≡e : n ≡ e = (nat_beq_iff n e).0 here in
        let (k, l) =
          same entry (subst (λ (x : ℕ). JsMap.get entries x ≡ some entry) (sym n≡e) at) in
        (
          new,
          subst (λ (x : ℕ). JsMap.get (JsMap.put entries n new) x ≡ some new) n≡e
              (get-put_self entries n new),
          k ∙ a,
          l ∙ b,
        )
    | inr other ↦ (entry, get-put_other entries n e new other ∙ at, a, b)
  ]

  -- The registry shrinks.
  pub shrunk-IsTracked :
      (s : Grants) (r : Registry)
      → IsWithin r s.registry
      → IsTracked s
      → IsTracked (record s { registry = r })
  shrunk-IsTracked s r within t = record {
    keyed = t.keyed;
    past = t.past;
    counted = t.counted;
    unknown = t.unknown;
    known = t.known;
    slots = λ g slot there. t.slots g slot (within.slot g slot there);
    young = λ e entry there. rw within.created (t.young e entry there);
    own = t.own;
  }
