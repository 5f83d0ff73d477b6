-- ===== src/Agent/Input.antt =====
-- cmd/agent/desktop.go: the input that a controller sends. `enqueueDesktopInput` puts the numbered
-- events back into their order, `queueDesktopInput` puts them into a channel, and
-- `desktopInputPump` takes them out, with neighbouring moves of the mouse made into one. The
-- handlers run one after the other.
pub mod Ready
pub mod Order
pub mod Queue
pub mod Pump
use runeverything.Base.Bytes.{Bytes}
use runeverything.Base.Int.{ℤ, is_zero}
use runeverything.Base.Maps.{lookup, insert, delete, nat_eq}
use runeverything.Base.{
  ℕ, zero, suc, ◌+◌, ◌%◌, ◌^◌, ◌≡◌, Bool, true, false, not, ◌&&◌, ◌||◌, Option, none, some, List,
  [], ◌∷◌, ◌++◌, ltb, ◌==◌, if◌then◌else◌, length, get_or, take, drop,
}

abbrev pub msg_input_mouse : ℕ
msg_input_mouse = 0x24

abbrev pub msg_input_key : ℕ
msg_input_key = 0x25

abbrev pub msg_input_touch : ℕ
msg_input_touch = 0x26

abbrev pub channel_cap : ℕ
channel_cap = 128

-- `F` is float64.
pub record InputMouse (F : Type 0) : Type 0 where
  pub session_id : Bytes
  pub event_id : ℕ  -- uint64
  pub x : F
  pub y : F
  pub buttons : ℤ
  pub wheel : ℤ
  pub wheel_h : ℤ
  pub down : Bool
  pub up : Bool
  pub move : Bool
  pub relative : Bool
  pub dx : F
  pub dy : F
  pub gesture : Bytes
  pub space_delta : ℤ

-- encoding/json, and the addition of float64. Of a key and a touch only the number is read here.
pub record InputJson (F : Type 0) : Type 0 where
  pub mouse_of : Bytes → Option (InputMouse F)
  pub mouse_bytes : InputMouse F → Option Bytes
  pub key_event_id : Bytes → Option ℕ
  pub touch_event_id : Bytes → Option ℕ
  pub add : F → F → F

-- A payload is marshalled without an error, and what was marshalled is read back.
pub record InputJsonLaws {F : Type 0} (js : InputJson F) : Type 0 where
  pub reads_back :
      (m : InputMouse F) → (b : Bytes) × (js.mouse_bytes m ≡ some b) × (js.mouse_of b ≡ some m)

pub record InputEvent : Type 0 where
  pub mt : ℕ
  pub body : Bytes

-- `inputNextID` and `inputPending`; no map is an empty one.
pub record Inputs : Type 0 where
  pub input_next_id : ℕ  -- uint64
  pub input_pending : List (ℕ × InputEvent)

-- `inputCh`, with the events that the pump has taken out of it so far.
pub record InputQueue : Type 0 where
  pub items : List InputEvent
  pub taken : List InputEvent

or_zero : Option ℕ → ℕ
or_zero none = 0
or_zero (some id) = id

-- Takes what waits under the next number, as long as there is something.
unfoldable pub take_ready : ℕ → ℕ → List (ℕ × InputEvent) → List InputEvent × Inputs
take_ready zero next pending = ([], record { input_next_id = next; input_pending = pending })
take_ready (suc fuel) next pending = elim (lookup next pending) [
  | none ↦ ([], record { input_next_id = next; input_pending = pending })
  | some ev ↦
      (let (ready, a) = take_ready fuel ((next + 1) % 2 ^ 64) (delete next pending) in
        (ev ∷ ready, a))
]

-- The part of `enqueueDesktopInput` under the lock, for an event with a number, with the number
-- that is next. Each round of its loop takes an entry out of the map.
unfoldable pub admit_next : ℕ → InputEvent → ℕ → List (ℕ × InputEvent) → List InputEvent × Inputs
admit_next id ev next pending =
    if ltb id next
    then ([], record { input_next_id = next; input_pending = pending })
    else if ltb next id
    then ([], record { input_next_id = next; input_pending = insert id ev pending })
    else (let (ready, a) = take_ready (length pending) ((next + 1) % 2 ^ 64) pending in
        (ev ∷ ready, a))

unfoldable pub admit : ℕ → InputEvent → Inputs → List InputEvent × Inputs
admit id ev a =
    admit_next id ev (if a.input_next_id == 0 then id else a.input_next_id) a.input_pending

module _ {F : Type 0} (js : InputJson F) where
  unfoldable pub input_event_id : ℕ → Bytes → ℕ
  unfolding or_zero
  input_event_id mt body =
      if mt == msg_input_mouse
      then elim (js.mouse_of body) [ none ↦ 0 | some p ↦ p.event_id ]
      else if mt == msg_input_key
      then or_zero (js.key_event_id body)
      else if mt == msg_input_touch
      then or_zero (js.touch_event_id body)
      else 0

  unfoldable pub move_only : InputMouse F → Bool
  move_only p =
      if not (length p.gesture == 0) || not (is_zero p.space_delta)
      then false
      else not p.down && not p.up && is_zero p.wheel && is_zero p.wheel_h

  unfoldable pub mouse_move_only : Bytes → Bool
  unfolding move_only
  mouse_move_only body = elim (js.mouse_of body) [ none ↦ false | some p ↦ move_only p ]

  unfoldable pub is_move : InputEvent → Bool
  unfolding mouse_move_only
  is_move ev = ev.mt == msg_input_mouse && mouse_move_only ev.body

  -- The channel is `none` while no desktop is open. `timely` says whether the pump takes an event
  -- out of a full channel before the 500 ms of a discrete event are over.
  unfoldable pub queue_input : Bool → InputEvent → InputQueue → InputQueue
  queue_input timely ev q =
      if ltb (length q.items) channel_cap
      then record q { items = q.items ++ (ev ∷ []) }
      else if is_move ev
      then record q { items = drop 1 q.items ++ (ev ∷ []) }
      else if timely
      then record { items = drop 1 q.items ++ (ev ∷ []); taken = q.taken ++ take 1 q.items }
      else q

  unfoldable pub queue_desktop_input : Bool → InputEvent → Option InputQueue → Option InputQueue
  queue_desktop_input timely ev none = none
  queue_desktop_input timely ev (some q) = some (queue_input timely ev q)

  -- A wait for each event.
  unfoldable pub queue_all : List Bool → List InputEvent → Option InputQueue → Option InputQueue
  queue_all ts [] q = q
  queue_all ts (ev ∷ evs) q =
      queue_all (drop 1 ts) evs (queue_desktop_input (get_or ts 0 false) ev q)

  unfoldable pub enqueue_desktop_input :
      List Bool → ℕ → Bytes → Inputs → Option InputQueue → Inputs × Option InputQueue
  unfolding input_event_id
  enqueue_desktop_input ts mt body a q =
      let ev : InputEvent = record { mt = mt; body = body } in
      let id = input_event_id mt body in
      let admitted = admit id ev a in
      if ltb 0 id
      then (admitted.1, queue_all ts admitted.0 q)
      else (a, queue_desktop_input (get_or ts 0 false) ev q)

  joined : InputMouse F → InputMouse F → InputMouse F
  joined pa pb =
      if pa.relative || pb.relative
      then record pb { relative = true; dx = js.add pa.dx pb.dx; dy = js.add pa.dy pb.dy }
      else pb

  or_else : Option Bytes → Bytes → Bytes
  or_else none b = b
  or_else (some c) b = c

  unfoldable pub coalesce_mouse_bodies : Bytes → Bytes → Bytes
  unfolding joined or_else
  coalesce_mouse_bodies a b = elim (js.mouse_of a) [
    | none ↦ b
    | some pa ↦ elim (js.mouse_of b) [
      | none ↦ b
      | some pb ↦ or_else (js.mouse_bytes (joined pa pb)) b
    ]
  ]

  -- What is handed to `handleDesktopInput` from the receipt of `ev` until the channel is found
  -- empty, where `more` are the events that are received meanwhile.
  unfoldable pub pump_batch : InputEvent → List InputEvent → List InputEvent
  pump_batch ev [] = ev ∷ []
  pump_batch ev (more ∷ rest) = elim (is_move ev && is_move more) [
    | true ↦ pump_batch (record ev { body = coalesce_mouse_bodies ev.body more.body }) rest
    | false ↦ ev ∷ pump_batch more rest
  ]

  -- The pump's loop: an event that it waits for, and those behind it, again and again.
  unfoldable pub desktop_input_pump : List (InputEvent × List InputEvent) → List InputEvent
  desktop_input_pump [] = []
  desktop_input_pump ((ev, more) ∷ batches) = pump_batch ev more ++ desktop_input_pump batches
