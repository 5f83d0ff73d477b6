-- ===== src/Examples/Inputs.antt =====
-- Concrete input for cmd/agent/desktop.go: a text of a mouse payload is its fields in turn.
use runeverything.Agent.Input.{
  InputMouse, InputJson, InputJsonLaws, InputEvent, InputQueue, msg_input_mouse, msg_input_key,
  channel_cap, is_move, mouse_move_only, move_only, queue_all, desktop_input_pump,
}
use runeverything.Agent.Input.Order.{admit_all, arrived, numbered_in_order}
use runeverything.Agent.Input.Ready.{LetThrough}
use runeverything.Agent.Input.Pump.{
  received, discrete, moved, IsRelative, desktop_input_pump-discrete, desktop_input_pump-moved,
}
use runeverything.Agent.Input.Queue.{moves_displace}
use runeverything.Base.Bytes.{Bytes}
use runeverything.Base.Int.{ℤ, pos, negsuc}
use runeverything.Base.{
  ℕ, zero, suc, ◌+◌, ◌*◌, ◌/◌, ◌%◌, ◌≡◌, refl, Bool, true, false, Option, none, some, List, [], ◌∷◌,
  ◌++◌, arith, ◌==◌, if◌then◌else◌, length, get_or, take, drop, take-length_append,
  drop-length_append, some-injective, ap,
}

abbrev of_bool : Bool → ℕ
of_bool true = 1
of_bool false = 0

abbrev of_int : ℤ → ℕ
of_int (pos n) = n * 2
of_int (negsuc n) = n * 2 + 1

abbrev to_int : ℕ → ℤ
to_int n = if n % 2 == 0 then pos (n / 2) else negsuc (n / 2)

to_bool-of_bool : (b : Bool) → (of_bool b == 1) ≡ b
to_bool-of_bool true = refl
to_bool-of_bool false = refl

to_int-of_int : (z : ℤ) → to_int (of_int z) ≡ z
to_int-of_int (pos n) =
    let even : n * 2 % 2 ≡ 0 = omega arith in
    let half : n * 2 / 2 ≡ n = omega arith in rw (even, half)
to_int-of_int (negsuc n) =
    let odd : (n * 2 + 1) % 2 ≡ 1 = omega arith in
    let half : (n * 2 + 1) / 2 ≡ n = omega arith in rw (odd, half)

abbrev text_of : InputMouse ℕ → Bytes
text_of m =
    m.event_id
    ∷ m.x
    ∷ m.y
    ∷ of_int m.buttons
    ∷ of_int m.wheel
    ∷ of_int m.wheel_h
    ∷ of_bool m.down
    ∷ of_bool m.up
    ∷ of_bool m.move
    ∷ of_bool m.relative
    ∷ m.dx
    ∷ m.dy
    ∷ of_int m.space_delta
    ∷ length m.session_id
    ∷ (m.session_id ++ m.gesture)

abbrev payload_of : Bytes → InputMouse ℕ
payload_of b = record {
  session_id = take (get_or b 13 0) (drop 14 b);
  event_id = get_or b 0 0;
  x = get_or b 1 0;
  y = get_or b 2 0;
  buttons = to_int (get_or b 3 0);
  wheel = to_int (get_or b 4 0);
  wheel_h = to_int (get_or b 5 0);
  down = get_or b 6 0 == 1;
  up = get_or b 7 0 == 1;
  move = get_or b 8 0 == 1;
  relative = get_or b 9 0 == 1;
  dx = get_or b 10 0;
  dy = get_or b 11 0;
  gesture = drop (get_or b 13 0) (drop 14 b);
  space_delta = to_int (get_or b 12 0);
}

abbrev read_payload : Bytes → Option (InputMouse ℕ)
read_payload [] = none
read_payload (n ∷ b) = some (payload_of (n ∷ b))

abbrev pub texts : InputJson ℕ
texts = record {
  mouse_of = read_payload;
  mouse_bytes = λ m. some (text_of m);
  key_event_id = λ b. some (get_or b 0 0);
  touch_event_id = λ b. some (get_or b 0 0);
  add = ◌+◌;
}

payload_of-text_of : (m : InputMouse ℕ) → payload_of (text_of m) ≡ m
payload_of-text_of m = rw (
  to_int-of_int m.buttons,
  to_int-of_int m.wheel,
  to_int-of_int m.wheel_h,
  to_int-of_int m.space_delta,
  to_bool-of_bool m.down,
  to_bool-of_bool m.up,
  to_bool-of_bool m.move,
  to_bool-of_bool m.relative,
  take-length_append m.session_id m.gesture,
  drop-length_append m.session_id m.gesture,
)

texts-InputJsonLaws : InputJsonLaws texts
texts-InputJsonLaws = record { reads_back = λ m. (text_of m, refl, ap some (payload_of-text_of m)) }

abbrev keys : ℕ → InputEvent
keys id = record { mt = msg_input_key; body = id ∷ [] }

-- The third key comes first, and the second twice.
numbered_in_order_example :
    let (out, a) =
      admit_all keys (1 ∷ 3 ∷ 2 ∷ 2 ∷ []) (record { input_next_id = 0; input_pending = [] }) in
    LetThrough keys (λ j. arrived j (1 ∷ 3 ∷ 2 ∷ 2 ∷ [])) 1 out a
numbered_in_order_example =
    numbered_in_order keys 1 (3 ∷ 2 ∷ 2 ∷ []) (omega arith)
      (omega arith, (omega arith, (omega arith, (omega arith, tt))))

-- A move in game mode.
abbrev moved_by : ℕ → ℕ → InputEvent
moved_by dx dy = record {
  mt = msg_input_mouse;
  body = text_of (record {
    session_id = 9 ∷ [];
    event_id = 0;
    x = 0;
    y = 0;
    buttons = pos 0;
    wheel = pos 0;
    wheel_h = pos 0;
    down = false;
    up = false;
    move = true;
    relative = true;
    dx = dx;
    dy = dy;
    gesture = [];
    space_delta = pos 0;
  });
}

abbrev clicks : ℕ → List InputEvent
clicks zero = []
clicks (suc n) = keys n ∷ clicks n

abbrev waiting : InputQueue
waiting = record { items = clicks channel_cap; taken = [] }

moves_displace_example :
    queue_all texts [] (moved_by 1 2 ∷ moved_by 3 4 ∷ []) (some waiting)
    ≡ some (record waiting {
      items = drop 2 (clicks channel_cap) ++ (moved_by 1 2 ∷ moved_by 3 4 ∷ []);
    })
unfolding is_move mouse_move_only move_only
moves_displace_example =
    moves_displace texts [] (moved_by 1 2 ∷ moved_by 3 4 ∷ []) waiting (refl, (refl, tt)) refl
      (omega arith)

-- Two moves that are made into one, a key, and a move.
abbrev batches : List (InputEvent × List InputEvent)
batches = (moved_by 1 2, moved_by 3 4 ∷ keys 5 ∷ []) ∷ (moved_by 6 7, []) ∷ []

desktop_input_pump-discrete_example :
    discrete texts (desktop_input_pump texts batches) ≡ discrete texts (received batches)
desktop_input_pump-discrete_example = desktop_input_pump-discrete texts texts-InputJsonLaws batches

abbrev moves : List (InputEvent × List InputEvent)
moves = (moved_by 1 2, moved_by 3 4 ∷ []) ∷ (moved_by 6 7, []) ∷ []

moved_by-IsRelative : (dx dy : ℕ) → IsRelative texts (moved_by dx dy)
moved_by-IsRelative dx dy p read =
    let same : payload_of (moved_by dx dy).body ≡ p = some-injective read in rw (← same)

desktop_input_pump-moved_example :
    moved texts (0, 0) (desktop_input_pump texts moves) ≡ moved texts (0, 0) (received moves)
unfolding received
desktop_input_pump-moved_example =
    desktop_input_pump-moved texts texts-InputJsonLaws (λ a b c. omega arith) (0, 0) moves
      (moved_by-IsRelative 1 2, (moved_by-IsRelative 3 4, (moved_by-IsRelative 6 7, tt)))
