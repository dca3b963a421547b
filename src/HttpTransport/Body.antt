-- ===== src/HttpTransport/Body.antt =====
-- The body of a request in transports/http.ts. `decode` is the built-in UTF-8 decoding and JSON
-- parser, none where it throws; a chunk is its bytes. The events are those of the request's stream.
use zendesk_mcp_server.Base.{
  ℕ, ◌+◌, ◌≤◌, ◌≡◌, refl, ap, ◌∙◌, inl, inr, Bool, true, false, Option, none, some, List, [], ◌∷◌,
  ◌++◌, arith, ltb, leb, if◌then◌else◌, Bool-cases, length, length-append, number_key, text_key,
}
use mathlib.Core.List.{append-nil, append_assoc}

pub data BodyEvent : Type 0 where
  chunk : List ℕ → BodyEvent
  ended failed : BodyEvent

pub data BodyResult (Value : Type 0) : Type 0 where
  parsed : Value → BodyResult Value
  absent : BodyResult Value  -- the value `undefined`
  too_large not_json unreadable : BodyResult Value

pub record Reading (Value : Type 0) : Type 0 where
  pub chunks : List ℕ  -- joined
  pub total : ℕ
  pub listening : Bool  -- to the chunks
  pub result : Option (BodyResult Value)

abbrev pub start_reading : {Value : Type 0} → Reading Value
start_reading = record { chunks = []; total = 0; listening = true; result = none }

abbrev pub settled :
    {Value : Type 0} → Option (BodyResult Value) → BodyResult Value → Option (BodyResult Value)
settled none result = some result
settled (some old) result = some old

abbrev pub joined : List (List ℕ) → List ℕ
joined [] = []
joined (bytes ∷ chunks) = bytes ++ joined chunks

abbrev pub sent : List (List ℕ) → List BodyEvent
sent [] = ended ∷ []
sent (bytes ∷ chunks) = chunk bytes ∷ sent chunks

module _ {Value : Type 0} (decode : List ℕ → Option Value) where
  abbrev pub decoded : Option Value → BodyResult Value
  decoded none = not_json
  decoded (some value) = parsed value

  abbrev pub body_of : List ℕ → BodyResult Value
  body_of [] = absent
  body_of (b ∷ raw) = decoded (decode (b ∷ raw))

module _ {Value : Type 0} (decode : List ℕ → Option Value) (max_body_bytes : ℕ) where
  abbrev pub on_chunk : Reading Value → List ℕ → ℕ → Reading Value
  on_chunk r bytes total =
      if ltb max_body_bytes total
      then record r { total = total; listening = false; result = settled r.result too_large }
      else record r { total = total; chunks = r.chunks ++ bytes }

  unfoldable pub on_event : Reading Value → BodyEvent → Reading Value
  on_event r (chunk bytes) = if r.listening then on_chunk r bytes (r.total + length bytes) else r
  on_event r ended = record r { result = settled r.result (body_of decode r.chunks) }
  on_event r failed = record r { result = settled r.result unreadable }

  unfoldable pub on_events : Reading Value → List BodyEvent → Reading Value
  on_events r [] = r
  on_events r (event ∷ events) = on_events (on_event r event) events

  -- none while the promise is pending
  unfoldable pub read_json_body : List BodyEvent → Option (BodyResult Value)
  unfolding on_events
  read_json_body events = (on_events start_reading events).result

  -- A chunk that is not heard, one past the limit, and one that is kept.
  chunk_unheard :
      (r : Reading Value) (bytes : List ℕ) → r.listening ≡ false → on_event r (chunk bytes) ≡ r
  unfolding on_event
  chunk_unheard r bytes deaf = ground arith

  chunk_over :
      (r : Reading Value) (bytes : List ℕ)
      → r.listening ≡ true
      → r.result ≡ none
      → ltb max_body_bytes (r.total + length bytes) ≡ true
      → on_event r (chunk bytes)
        ≡ record r { total = r.total + length bytes; listening = false; result = some too_large }
  unfolding on_event
  chunk_over r bytes hears pending over = ground arith

  chunk_kept :
      (r : Reading Value) (bytes : List ℕ)
      → r.listening ≡ true
      → ltb max_body_bytes (r.total + length bytes) ≡ false
      → on_event r (chunk bytes)
        ≡ record r { total = r.total + length bytes; chunks = r.chunks ++ bytes }
  unfolding on_event
  chunk_kept r bytes hears fits = ground arith

  -- A settled result stays.
  settled_stays :
      (r : Reading Value) (chunks : List (List ℕ)) (result : BodyResult Value)
      → r.result ≡ some result
      → r.listening ≡ false
      → (on_events r (sent chunks)).result ≡ some result
  unfolding on_events
  settled_stays r [] result h deaf = unfold on_event in (rw h refl)
  settled_stays r (bytes ∷ chunks) result h deaf =
      ap (λ (x : Reading Value). (on_events x (sent chunks)).result) (chunk_unheard r bytes deaf)
      ∙ settled_stays r chunks result h deaf

  sent_on :
      (r : Reading Value) (chunks : List (List ℕ))
      → r.listening ≡ true
      → r.result ≡ none
      → r.total ≡ length r.chunks
      → r.total ≤ max_body_bytes
      → (on_events r (sent chunks)).result
        ≡ some (
            if leb (r.total + length (joined chunks)) max_body_bytes
            then body_of decode (r.chunks ++ joined chunks)
            else too_large)
  unfolding on_events
  sent_on r [] hears pending whole within =
      unfold on_event in (rw (pending, append-nil r.chunks) (ground (arith, within)))
  sent_on r (bytes ∷ chunks) hears pending whole within =
      let all : length (bytes ++ joined chunks) ≡ length bytes + length (joined chunks) =
        length-append bytes (joined chunks) in
      elim (Bool-cases (ltb max_body_bytes (r.total + length bytes))) [
        | inl over ↦
            let stops =
              settled_stays
                (record r {
                  total = r.total + length bytes;
                  listening = false;
                  result = some too_large;
                })
                chunks too_large refl refl in
            let more : leb (r.total + length (bytes ++ joined chunks)) max_body_bytes ≡ false =
              ground (arith, all, over) in
            rw more (
              ap (λ (x : Reading Value). (on_events x (sent chunks)).result)
                (chunk_over r bytes hears pending over)
              ∙ stops)
        | inr fits ↦
            let next =
              sent_on (record r { total = r.total + length bytes; chunks = r.chunks ++ bytes })
                chunks hears pending (ground (arith, whole, length-append r.chunks bytes))
                (ground (arith, fits)) in
            let sum : r.total + length bytes + length (joined chunks)
                ≡ r.total + length (bytes ++ joined chunks) =
              omega (arith, all) in
            ap (λ (x : Reading Value). (on_events x (sent chunks)).result)
              (chunk_kept r bytes hears fits)
            ∙ next
            ∙ rw (sum, append_assoc r.chunks bytes (joined chunks)) refl
      ]

  -- A body that arrives in any chunks and ends is read as one text where it is within the limit, and
  -- answered as too large where it is not, however it was cut.
  pub read_json_body-sent :
      (chunks : List (List ℕ))
      → read_json_body (sent chunks)
        ≡ some (
            if leb (length (joined chunks)) max_body_bytes
            then body_of decode (joined chunks)
            else too_large)
  unfolding read_json_body
  read_json_body-sent chunks =
      let zero_add : 0 + length (joined chunks) ≡ length (joined chunks) = omega arith in
      rw (← zero_add) (sent_on start_reading chunks refl refl refl (omega arith))

  IsBuffered : Reading Value → Type 0
  IsBuffered r =
      (length r.chunks ≤ max_body_bytes) × (r.listening ≡ true → r.total ≡ length r.chunks)

  on_event-IsBuffered :
      (r : Reading Value) (event : BodyEvent) → IsBuffered r → IsBuffered (on_event r event)
  unfolding on_event IsBuffered
  on_event-IsBuffered r (chunk bytes) h = ground (arith, h.0, h.1, length-append r.chunks bytes)
  on_event-IsBuffered r ended h = h
  on_event-IsBuffered r failed h = h

  on_events-IsBuffered :
      (r : Reading Value) (events : List BodyEvent) → IsBuffered r → IsBuffered (on_events r events)
  unfolding on_events
  on_events-IsBuffered r [] h = h
  on_events-IsBuffered r (event ∷ events) h =
      on_events-IsBuffered (on_event r event) events (on_event-IsBuffered r event h)

  -- Whatever the events of a request's stream, never more bytes are held than the limit.
  pub buffered_bounded :
      (events : List BodyEvent) → length (on_events start_reading events).chunks ≤ max_body_bytes
  unfolding IsBuffered
  buffered_bounded events =
      (on_events-IsBuffered start_reading events (omega arith, λ hears. refl)).0
