-- ===== src/Agent/Input/Pump.antt =====
-- `desktopInputPump` of cmd/agent/desktop.go: what is handled of what is received.
use runeverything.Agent.Input.{
  InputMouse, InputJson, InputJsonLaws, InputEvent, msg_input_mouse, mouse_move_only, is_move,
  move_only, joined, coalesce_mouse_bodies, pump_batch, desktop_input_pump,
}
use runeverything.Base.Bytes.{Bytes}
use runeverything.Base.{
  ◌≡◌, refl, sym, ap, ◌∙◌, inl, inr, true, ◌&&◌, ◌||◌, none, some, List, [], ◌∷◌, ◌++◌, arith,
  if◌then◌else◌, Bool-cases, Option-cases, some-injective, All, All-split,
}

-- The events in the order in which the pump receives them.
unfoldable pub received : List (InputEvent × List InputEvent) → List InputEvent
received [] = []
received ((ev, more) ∷ batches) = (ev ∷ more) ++ received batches

module _ {F : Type 0} (js : InputJson F) where
  -- Clicks, keys, touches, turns of the wheel and gestures.
  unfoldable pub discrete : List InputEvent → List InputEvent
  discrete [] = []
  discrete (ev ∷ evs) = if is_move js ev then discrete evs else ev ∷ discrete evs

  -- The sum of the displacements, from a position on.
  unfoldable pub shift : F × F → InputEvent → F × F
  shift (x, y) ev = elim (js.mouse_of ev.body) [
    | none ↦ (x, y)
    | some p ↦ if is_move js ev then (js.add x p.dx, js.add y p.dy) else (x, y)
  ]

  unfoldable pub moved : F × F → List InputEvent → F × F
  unfolding shift
  moved at [] = at
  moved at (ev ∷ evs) = moved (shift at ev) evs

  abbrev pub IsRelative : InputEvent → Type 0
  IsRelative ev = (p : InputMouse F) → js.mouse_of ev.body ≡ some p → p.relative ≡ true

  -- A move as it is read.
  record Move (ev : InputEvent) : Type 0 where
    pub payload : InputMouse F
    pub read : js.mouse_of ev.body ≡ some payload
    pub pure : move_only js payload ≡ true
    pub tagged : ev.mt ≡ msg_input_mouse

  is_move-Move : (ev : InputEvent) → is_move js ev ≡ true → Move ev
  unfolding is_move mouse_move_only
  is_move-Move ev h = elim (Option-cases (js.mouse_of ev.body)) [
    | inl none_read ↦ absurd (ground arith)
    | inr (p, e) ↦ record { payload = p; read = e; pure = ground arith; tagged = ground arith }
  ]

  Move-is_move : (ev : InputEvent) → Move ev → is_move js ev ≡ true
  unfolding is_move mouse_move_only
  Move-is_move ev m = ground (arith, m.read, m.tagged, m.pure)

  coalesce_joined :
      (a b c : Bytes) (pa pb : InputMouse F)
      → js.mouse_of a ≡ some pa
      → js.mouse_of b ≡ some pb
      → js.mouse_bytes (joined js pa pb) ≡ some c
      → coalesce_mouse_bodies js a b ≡ c
  unfolding coalesce_mouse_bodies
  coalesce_joined a b c pa pb ha hb hc = ground (arith, ha, hb, hc)

  joined-pure :
      (pa pb : InputMouse F) → move_only js pb ≡ true → move_only js (joined js pa pb) ≡ true
  unfolding joined move_only
  joined-pure pa pb h = elim (Bool-cases (pa.relative || pb.relative)) [
    | inl game ↦ rw game h
    | inr plain ↦ rw plain h
  ]

  -- Two moves are made into one, with the joined payload.
  coalesce-Move :
      InputJsonLaws js
      → (a b : InputEvent) (ma : Move a) (mb : Move b)
      → (m : Move (record a { body = coalesce_mouse_bodies js a.body b.body })) × (m.payload
          ≡ joined js ma.payload mb.payload)
  coalesce-Move laws a b ma mb =
      let (bytes, written, back) = laws.reads_back (joined js ma.payload mb.payload) in
      let same : coalesce_mouse_bodies js a.body b.body ≡ bytes =
        coalesce_joined a.body b.body bytes ma.payload mb.payload ma.read mb.read written in
      (
        record {
          payload = joined js ma.payload mb.payload;
          read = rw same back;
          pure = joined-pure ma.payload mb.payload mb.pure;
          tagged = ma.tagged;
        },
        refl,
      )

  pump_batch-discrete :
      InputJsonLaws js
      → (ev : InputEvent) (more : List InputEvent)
      → discrete (pump_batch js ev more) ≡ discrete (ev ∷ more)
  unfolding pump_batch discrete
  pump_batch-discrete laws ev [] = refl
  pump_batch-discrete laws ev (m ∷ rest) = elim (Bool-cases (is_move js ev && is_move js m)) [
    | inl both ↦
        let a : is_move js ev ≡ true = ground arith in
        let b : is_move js m ≡ true = ground arith in
        let c = Move-is_move _ (coalesce-Move laws ev m (is_move-Move ev a) (is_move-Move m b)).0 in
        ground (
          arith,
          pump_batch-discrete laws (record ev { body = coalesce_mouse_bodies js ev.body m.body })
              rest,
          a,
          b,
          c,
        )
    | inr other ↦ ground (arith, pump_batch-discrete laws m rest, other)
  ]

  shift-Move :
      (at : F × F) (ev : InputEvent) (m : Move ev)
      → shift at ev ≡ (js.add at.0 m.payload.dx, js.add at.1 m.payload.dy)
  unfolding shift
  shift-Move at ev m = ground (arith, m.read, Move-is_move ev m)

  joined-relative :
      (pa pb : InputMouse F)
      → pa.relative ≡ true
      → joined js pa pb
        ≡ record pb { relative = true; dx = js.add pa.dx pb.dx; dy = js.add pa.dy pb.dy }
  unfolding joined
  joined-relative pa pb game = rw game

  abbrev coalesced : InputEvent → InputEvent → InputEvent
  coalesced a b = record a { body = coalesce_mouse_bodies js a.body b.body }

  coalesced-IsRelative :
      InputJsonLaws js
      → (a b : InputEvent) → Move a
      → Move b
      → IsRelative a
      → IsRelative (coalesced a b)
  coalesced-IsRelative laws a b ma mb game p read =
      let (m, e) = coalesce-Move laws a b ma mb in
      let same : p ≡ m.payload = some-injective (sym read ∙ m.read) in
      rw (same, e, joined-relative ma.payload mb.payload (game ma.payload ma.read))

  discrete-append : (xs ys : List InputEvent) → discrete (xs ++ ys) ≡ discrete xs ++ discrete ys
  unfolding discrete
  discrete-append [] ys = refl
  discrete-append (x ∷ xs) ys = elim (Bool-cases (is_move js x)) [
    | inl move ↦ rw move (discrete-append xs ys)
    | inr other ↦ rw other (ap (◌∷◌ x) (discrete-append xs ys))
  ]

  -- Where payloads can be marshalled and are read back: all that is received but pure moves of the
  -- mouse is handled, in the order of receipt, each once and unchanged.
  pub desktop_input_pump-discrete :
      InputJsonLaws js
      → (batches : List (InputEvent × List InputEvent))
      → discrete (desktop_input_pump js batches) ≡ discrete (received batches)
  unfolding desktop_input_pump received
  desktop_input_pump-discrete laws [] = refl
  desktop_input_pump-discrete laws ((ev, more) ∷ batches) =
      discrete-append (pump_batch js ev more) (desktop_input_pump js batches)
      ∙ rw (pump_batch-discrete laws ev more, desktop_input_pump-discrete laws batches)
          (sym (discrete-append (ev ∷ more) (received batches)))

  module _ (laws : InputJsonLaws js)
      (add_assoc : (a b c : F) → js.add (js.add a b) c ≡ js.add a (js.add b c)) where
    shift_twice :
        (at : F × F) (a b : InputEvent)
        → Move a
        → Move b
        → IsRelative a
        → shift (shift at a) b ≡ shift at (coalesced a b)
    shift_twice at a b ma mb game =
        let (m, e) = coalesce-Move laws a b ma mb in
        let whole = joined-relative ma.payload mb.payload (game ma.payload ma.read) in
        rw (
          shift-Move (shift at a) b mb,
          shift-Move at a ma,
          shift-Move at (coalesced a b) m,
          e,
          whole,
          add_assoc at.0 ma.payload.dx mb.payload.dx,
          add_assoc at.1 ma.payload.dy mb.payload.dy,
        )

    pump_batch-moved :
        (at : F × F) (ev : InputEvent) (more : List InputEvent)
        → All IsRelative (ev ∷ more)
        → moved at (pump_batch js ev more) ≡ moved at (ev ∷ more)
    unfolding pump_batch moved
    pump_batch-moved at ev [] h = refl
    pump_batch-moved at ev (m ∷ rest) h = elim (Bool-cases (is_move js ev && is_move js m)) [
      | inl both ↦
          let a = is_move-Move ev (ground arith) in
          let b = is_move-Move m (ground arith) in
          rw (both, pump_batch)
            (pump_batch-moved at (coalesced ev m) rest
                (coalesced-IsRelative laws ev m a b h.0, h.1.1)
              ∙ ap (λ q. moved q rest) (sym (shift_twice at ev m a b h.0)))
      | inr other ↦ rw (other, pump_batch) (pump_batch-moved (shift at ev) m rest h.1)
    ]

    moved-append :
        (at : F × F) (xs ys : List InputEvent) → moved at (xs ++ ys) ≡ moved (moved at xs) ys
    unfolding moved
    moved-append at [] ys = refl
    moved-append at (x ∷ xs) ys = moved-append (shift at x) xs ys

    -- In game mode, where payloads can be marshalled and are read back and the additions are exact:
    -- what is handled moves the mouse from any place to where all that is received would move it.
    pub desktop_input_pump-moved :
        (at : F × F) (batches : List (InputEvent × List InputEvent))
        → All IsRelative (received batches)
        → moved at (desktop_input_pump js batches) ≡ moved at (received batches)
    unfolding desktop_input_pump received moved
    desktop_input_pump-moved at [] h = refl
    desktop_input_pump-moved at ((ev, more) ∷ batches) h =
        let (first, rest) = All-split IsRelative (ev ∷ more) (received batches) h in
        moved-append at (pump_batch js ev more) (desktop_input_pump js batches)
        ∙ rw (pump_batch-moved at ev more first) (
            desktop_input_pump-moved (moved at (ev ∷ more)) batches rest
            ∙ sym (moved-append at (ev ∷ more) (received batches)))
