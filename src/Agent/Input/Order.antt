-- ===== src/Agent/Input/Order.antt =====
-- `enqueueDesktopInput` of cmd/agent/desktop.go: the order in which numbered events are let through.
use runeverything.Agent.Input.{InputEvent, Inputs, admit_next, admit}
use runeverything.Base.Maps.{lookup, lookup-insert, nat_eq}
use mathlib.Core.Path.{fun_ext}
use runeverything.Base.{
  ℕ, suc, ◌+◌, ◌%◌, ◌^◌, ◌<◌, ◌-◌, ◌≡◌, refl, inl, inr, Bool, true, false, ◌||◌, List, [], ◌∷◌,
  ◌++◌, append-nil, append_assoc, arith, ltb, ◌==◌, Bool-cases, length, All,
}
use runeverything.Agent.Input.Ready.{
  numbered, Held, LetThrough, Bounded, take_ready-LetThrough, numbered-add,
}

-- The number has arrived.
unfoldable pub arrived : ℕ → List ℕ → Bool
arrived j [] = false
arrived j (i ∷ is) = i == j || arrived j is

-- Each arrival brings the event of its number, however often it arrives.
unfoldable pub admit_all : (ℕ → InputEvent) → List ℕ → Inputs → List InputEvent × Inputs
admit_all evs [] a = ([], a)
admit_all evs (id ∷ ids) a =
    let (ready, b) = admit id (evs id) a in
    let (later, c) = admit_all evs ids b in (ready ++ later, c)

module _ (evs : ℕ → InputEvent) (s : ℕ) (seen : ℕ → Bool) where
  also : ℕ → ℕ → Bool
  also id j = id == j || seen j

  here_after :
      (id next k m : ℕ)
      → id ≡ next
      → next ≡ s + k
      → ((i : ℕ) → i < k → seen (s + i) ≡ true)
      → ((i : ℕ) → i < m → also id (next + 1 + i) ≡ true)
      → (i : ℕ) → i < k + suc m
      → also id (s + i) ≡ true
  unfolding also
  here_after id next k m same at here later i lt = elim (Bool-cases (ltb i k)) [
    | inl low ↦ ground (arith, here i (ground arith))
    | inr high ↦ elim (Bool-cases (i == k)) [
      | inl mid ↦ ground arith
      | inr above ↦
          let split : s + i ≡ next + 1 + (i - k - 1) = ground arith in
          rw split (later (i - k - 1) (ground arith))
    ]
  ]

  numbered_on :
      (id next k m : ℕ) (ready : List InputEvent)
      → id ≡ next
      → next ≡ s + k
      → ready ≡ numbered evs (next + 1) m
      → numbered evs s k ++ (evs id ∷ ready) ≡ numbered evs s (k + suc m)
  numbered_on id next k m ready same at e = rw (same, e, at) (numbered-add evs s k (suc m))

  -- One more arrival, where `next` is the number that is waited for.
  admit_next-LetThrough :
      (id next k : ℕ) (pending : List (ℕ × InputEvent))
      → Bounded evs (also id)
      → next ≡ s + k
      → ((i : ℕ) → i < k → seen (s + i) ≡ true)
      → seen next ≡ false
      → Held evs seen next pending
      → LetThrough evs
          (also id)
          s
          (numbered evs s k ++ (admit_next id (evs id) next pending).0)
          (admit_next id (evs id) next pending).1
  unfolding admit_next also
  admit_next-LetThrough id next k pending bound at here missing held =
      elim (Bool-cases (ltb id next)) [
        | inl old ↦
            rw (old, append-nil)
              (record {
                k = k;
                ready_eq = refl;
                next_eq = at;
                here = λ i lt. ground (arith, here i lt);
                missing = rw (← at) (ground arith);
                held = rw (← at) (λ j. ground (arith, held j));
              })
        | inr new ↦ elim (Bool-cases (ltb next id)) [
          | inl early ↦
              rw (new, early, append-nil)
                (record {
                  k = k;
                  ready_eq = refl;
                  next_eq = at;
                  here = λ i lt. ground (arith, here i lt);
                  missing = rw (← at) (ground arith);
                  held =
                      rw (← at) (λ j. ground (arith, held j, lookup-insert id j (evs id) pending));
                })
          | inr due ↦
              let same : id ≡ next = ground arith in
              let wraps : (next + 1) % 2 ^ 64 ≡ next + 1 =
                omega (arith, bound next (ground arith)) in
              let t =
                take_ready-LetThrough evs (also id) bound (length pending) (next + 1) pending
                  (omega arith) (λ j. ground (arith, held j)) in
              let along : s + (k + suc t.k) ≡ next + 1 + t.k = omega arith in
              rw (new, due, wraps)
                (record {
                  k = k + suc t.k;
                  ready_eq = numbered_on id next k t.k _ same at t.ready_eq;
                  next_eq = omega (arith, t.next_eq);
                  here = here_after id next k t.k same at here t.here;
                  missing = rw along t.missing;
                  held = rw along t.held;
                })
        ]
      ]

  admit-LetThrough :
      (id : ℕ) (out : List InputEvent) (a : Inputs)
      → 0 < s
      → Bounded evs (also id)
      → LetThrough evs seen s out a
      → LetThrough evs (also id) s (out ++ (admit id (evs id) a).0) (admit id (evs id) a).1
  unfolding admit
  admit-LetThrough id out a pos bound t =
      let some_next : (a.input_next_id == 0) ≡ false = ground (arith, t.next_eq) in
      rw (some_next, t.ready_eq)
        (admit_next-LetThrough id a.input_next_id t.k a.input_pending bound t.next_eq t.here
          (rw t.next_eq t.missing) (rw t.next_eq t.held))

module _ (evs : ℕ → InputEvent) (s : ℕ) (pos : 0 < s) where
  admit_all-LetThrough :
      (ids : List ℕ) (seen : ℕ → Bool) (out : List InputEvent) (a : Inputs)
      → Bounded evs (λ j. arrived j ids || seen j)
      → LetThrough evs seen s out a
      → LetThrough evs
          (λ j. arrived j ids || seen j)
          s
          (out ++ (admit_all evs ids a).0)
          (admit_all evs ids a).1
  unfolding admit_all arrived also
  admit_all-LetThrough [] seen out a bound t = rw append-nil t
  admit_all-LetThrough (id ∷ ids) seen out a bound t =
      let swap : (j : ℕ)
          → (arrived j ids || (id == j || seen j)) ≡ ((id == j || arrived j ids) || seen j) =
        λ j. ground arith in
      let ready : List InputEvent = (admit id (evs id) a).0 in
      let rest =
        admit_all-LetThrough ids (λ j. id == j || seen j) (out ++ ready) (admit id (evs id) a).1
          (λ j h. bound j (ground arith))
          (admit-LetThrough evs s seen id out a pos (λ j h. bound j (ground arith)) t) in
      rw (← (fun_ext swap)) (rw (append_assoc out ready _) at rest)

arrived-Bounded :
    (j : ℕ) (ids : List ℕ) → All (λ i. i + 1 < 2 ^ 64) ids → arrived j ids ≡ true → j + 1 < 2 ^ 64
unfolding arrived
arrived-Bounded j [] h e = cc
arrived-Bounded j (i ∷ is) h e = elim (Bool-cases (i == j)) [
  | inl at ↦ ground arith
  | inr off ↦ arrived-Bounded j is h.1 (ground arith)
]

first_admitted :
    (evs : ℕ → InputEvent) (id : ℕ) (ids : List ℕ)
    → 0 < id
    → admit_all evs (id ∷ ids) (record { input_next_id = 0; input_pending = [] })
      ≡ admit_all evs (id ∷ ids) (record { input_next_id = id; input_pending = [] })
unfolding admit_all admit
first_admitted evs id ids pos = let given : (id == 0) ≡ false = ground arith in rw given

-- From the opening of the desktop on, whatever the order in which the numbered events arrive and
-- however often: those let through are the events of consecutive numbers from the first arrival's
-- on, each once, up to the first number that has not arrived; what arrived beyond it waits.
pub numbered_in_order :
    (evs : ℕ → InputEvent) (id : ℕ) (ids : List ℕ)
    → 0 < id
    → All (λ j. j + 1 < 2 ^ 64) (id ∷ ids)
    → let (out, a) = admit_all evs (id ∷ ids) (record { input_next_id = 0; input_pending = [] }) in
      LetThrough evs (λ j. arrived j (id ∷ ids)) id out a
unfolding lookup
numbered_in_order evs id ids pos bound =
    let rest =
      admit_all-LetThrough evs id pos (id ∷ ids) (λ _. false) []
        (record { input_next_id = id; input_pending = [] })
        (λ j h. arrived-Bounded j (id ∷ ids) bound (ground arith))
        (record {
          k = 0;
          ready_eq = refl;
          next_eq = omega arith;
          here = λ i lt. absurd (omega arith);
          missing = refl;
          held = λ j. refl;
        }) in
    let plain : (j : ℕ) → (arrived j (id ∷ ids) || false) ≡ arrived j (id ∷ ids) =
      λ j. ground arith in
    rw (first_admitted evs id ids pos) (rw (← (fun_ext plain)) rest)
