-- ===== src/Agent/Input/Queue.antt =====
-- `queueDesktopInput` of cmd/agent/desktop.go: what the channel of input events loses.
use runeverything.Agent.Input.{
  InputJson, InputEvent, InputQueue, channel_cap, is_move, queue_input, queue_desktop_input,
  queue_all,
}
use runeverything.Base.{
  ◌≤◌, ◌≡◌, ◌∙◌, Bool, true, false, some, List, [], ◌∷◌, ◌++◌, append-nil, append_assoc, arith, ltb,
  length, get_or, drop, All, length-append,
}

module _ {F : Type 0} (js : InputJson F) where
  queue_input-full :
      (timely : Bool) (m e : InputEvent) (items taken : List InputEvent)
      → is_move js m ≡ true
      → length (e ∷ items) ≡ channel_cap
      → queue_input js timely m (record { items = e ∷ items; taken = taken })
        ≡ record { items = items ++ (m ∷ []); taken = taken }
  unfolding queue_input
  queue_input-full timely m e items taken move full =
      let none_free : ltb (length (e ∷ items)) channel_cap ≡ false = ground arith in
      rw (none_free, move)

  flood :
      (ts : List Bool) (moves items later taken : List InputEvent)
      → All (λ m. is_move js m ≡ true) moves
      → length (items ++ later) ≡ channel_cap
      → length moves ≤ length items
      → queue_all js ts moves (some (record { items = items ++ later; taken = taken }))
        ≡ some (record { items = drop (length moves) items ++ (later ++ moves); taken = taken })
  unfolding queue_all queue_desktop_input
  flood ts [] items later taken h full le = rw append-nil
  flood ts (m ∷ moves) [] later taken h full le = absurd (omega arith)
  flood ts (m ∷ moves) (e ∷ items) later taken h full le =
      rw (queue_input-full (get_or ts 0 false) m e (items ++ later) taken h.0 full) (
        rw (append_assoc items later (m ∷ [])) (
          flood (drop 1 ts) moves items (later ++ (m ∷ [])) taken h.1
            (omega (
              arith,
              length-append {A = InputEvent} items later,
              length-append {A = InputEvent} later (m ∷ []),
              length-append {A = InputEvent} items (later ++ (m ∷ [])),
            ))
            (omega arith)
          ∙ rw (append_assoc later (m ∷ []) moves)))

  -- While the channel is full and the pump takes nothing, every move that comes in displaces the
  -- oldest event that waits, whatever that is: clicks and keys too.
  pub moves_displace :
      (ts : List Bool) (moves : List InputEvent) (q : InputQueue)
      → All (λ m. is_move js m ≡ true) moves
      → length q.items ≡ channel_cap
      → length moves ≤ channel_cap
      → queue_all js ts moves (some q)
        ≡ some (record q { items = drop (length moves) q.items ++ moves })
  moves_displace ts moves q h full le =
      let same : q.items ++ [] ≡ q.items = append-nil q.items in
      rw same at (flood ts moves q.items [] q.taken h (rw same full) (omega arith))
