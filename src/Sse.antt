-- ===== src/Sse.antt =====
-- `useSSE` of ui-simple/src/lib/sse.ts: the buffer of the last events and the connection's state.
-- A message's data is parsed by `JSON.parse`, which may throw; the fields of an event that are
-- missing get defaults, of which the clock gives two.
pub mod Window
pub mod Timers
pub mod Cleanup
mod Examples
use multi_job.Prelude.{
  ℕ, ◌-◌, Bool, true, false, String, List, [], ◌∷◌, ◌++◌, Option, none, some, if◌then◌else◌, length,
  drop, set, get_elem?, nat_eq,
}
use multi_job.Js.Text.{or_text}

-- `D` is the type of the data of an event.
pub record Event (D : Type 0) : Type 0 where
  pub id : String
  pub type : String
  pub timestamp : String
  pub payload : D

-- `xs.slice(-n)`, for a positive `n`.
pub slice_last {ℓ} : {A : Type ℓ} → ℕ → List A → List A
slice_last n xs = drop (length xs - n) xs

-- What `JSON.parse` gives for a message. A field that is missing or falsy is the empty text, or `none`.
pub record RawEvent (D : Type 0) : Type 0 where
  pub id : String
  pub type : String
  pub timestamp : String
  pub payload : Option D

-- `Date.now().toString()`, `new Date().toISOString()` and `{}` at the time of a message.
pub record Defaults (D : Type 0) : Type 0 where
  pub now : String
  pub iso_now : String
  pub empty : D

module _ {D : Type 0} where
  abbrev data_or : D → Option D → D
  data_or empty none = empty
  data_or empty (some d) = d

  pub new_event : Defaults D → RawEvent D → Event D
  new_event d raw = record {
    id = or_text raw.id d.now;
    type = or_text raw.type "unknown";
    timestamp = or_text raw.timestamp d.iso_now;
    payload = data_or d.empty raw.payload;
  }

-- The states of an `EventSource`.
pub data ReadyState : Type 0 where
  connecting open_state closed : ReadyState

abbrev is_closed : Option ReadyState → Bool
is_closed (some closed) = true
is_closed _ = false

abbrev drop_one : ℕ → List ℕ → List ℕ
drop_one k [] = []
drop_one k (j ∷ js) = if nat_eq j k then js else j ∷ drop_one k js

abbrev pub close_current : Option ℕ → List ReadyState → List ReadyState
close_current none sources = sources
close_current (some k) sources = set sources k closed

-- The refs and the state of the hook. `sources` holds every `EventSource` that was made, oldest first;
-- `timers` holds, for each pending `setTimeout`, the number of the source that it was set for;
-- `active` is whether the effect has run last, so that its cleanup is still to come.
pub record Hook (D : Type 0) : Type 0 where
  pub buffer : List (Event D)
  pub events : List (Event D)
  pub is_connected : Bool
  pub error : Option String
  pub toasts : List String
  pub sources : List ReadyState
  pub timers : List ℕ
  pub current : Option ℕ
  pub active : Bool

-- What the browser and the server may bring about.
pub data Action (D : Type 0) : Type 0 where
  -- The first events, or those of a refresh, have come; or their request has failed.
  loaded : List (Event D) → Action D
  load_failed : Action D
  -- A source reports that it is open.
  opened : ℕ → Action D
  -- A message, parsed; `none` if `JSON.parse` throws.
  message : Defaults D → Option (RawEvent D) → Action D
  -- A source reports an error, and is now in this state.
  failed : ℕ → ReadyState → Action D
  -- The oldest timer of a source runs; the flag says whether `new EventSource` succeeds.
  timer : ℕ → Bool → Action D
  -- `enabled` changes to the value, or the component goes. The flag is that of `timer`.
  enabled_changed : Bool → Bool → Action D
  unmounted : Action D

module _ {D : Type 0} where
  -- `setEvents([...bufferRef.current])` after a change of the buffer.
  abbrev show_buffer : List (Event D) → Hook D → Hook D
  show_buffer buffer h = record h { buffer = buffer; events = buffer }

  -- `connectSSE`
  pub connect_sse : Bool → Hook D → Hook D
  connect_sse true h = record h {
    sources = h.sources ++ connecting ∷ [];
    current = some (length h.sources);
  }
  connect_sse false h = record h {
    error = some "Gagal menghubungkan ke realtime. Menggunakan polling.";
    is_connected = false;
  }

  -- The function that the effect returns, which runs before the next effect and at the end.
  pub cleanup : Hook D → Hook D
  cleanup h = record h {
    sources = if h.active then close_current h.current h.sources else h.sources;
    active = false;
  }

  -- The effect that connects, for a value of `enabled`.
  pub start : Bool → Bool → Hook D → Hook D
  unfolding connect_sse
  start enabled succeeds h =
      if enabled then connect_sse succeeds (record h { active = true }) else h

  pub step : Hook D → Action D → Hook D
  unfolding slice_last new_event connect_sse cleanup start
  step h (loaded events) = show_buffer (slice_last 200 events) h
  step h load_failed = h
  step h (opened k) = record h {
    is_connected = true;
    error = none;
    sources = set h.sources k open_state;
  }
  step h (message d none) = h
  step h (message d (some raw)) = show_buffer (slice_last 200 (h.buffer ++ new_event d raw ∷ [])) h
  step h (failed k state) = record h {
    is_connected = false;
    error = some "Realtime terputus. Menggunakan polling sebagai cadangan.";
    toasts = h.toasts ++ "Realtime terputus" ∷ [];
    sources = set h.sources k state;
    timers = h.timers ++ k ∷ [];
  }
  step h (timer k succeeds) =
      let h' = record h { timers = drop_one k h.timers } in
      if is_closed (get_elem? h.sources k) then connect_sse succeeds h' else h'
  step h (enabled_changed enabled succeeds) = start enabled succeeds (cleanup h)
  step h unmounted = cleanup h

  pub run : Hook D → List (Action D) → Hook D
  run h [] = h
  run h (a ∷ as') = run (step h a) as'

  -- The hook before its effects, and after the effect that connects, if it is enabled.
  unfoldable pub initial_hook : Hook D
  initial_hook = record {
    buffer = [];
    events = [];
    is_connected = false;
    error = none;
    toasts = [];
    sources = [];
    timers = [];
    current = none;
    active = false;
  }

  unfoldable pub mount : Bool → Bool → Hook D
  unfolding start
  mount enabled succeeds = start enabled succeeds initial_hook

  -- The events that the hook returns.
  unfoldable pub displayed : Hook D → List (Event D)
  displayed h = slice_last 20 h.events
