-- ===== src/Agent/Input/Ready.antt =====
-- `enqueueDesktopInput` of cmd/agent/desktop.go: its loop lets the events of consecutive numbers
-- through.
use runeverything.Agent.Input.{InputEvent, Inputs, take_ready}
use native.Mathlib.Nat.{add-zero, zero-add}
use runeverything.Base.Maps.{lookup, delete, lookup-delete, length-delete_lt, nat_eq}
use runeverything.Base.{
  ℕ, zero, suc, ◌+◌, ◌%◌, ◌^◌, ◌≤◌, ◌<◌, ◌≡◌, refl, ap, inl, inr, Bool, true, false, ◌&&◌, none,
  some, List, [], ◌∷◌, ◌++◌, arith, leb, if◌then◌else◌, Option-cases, length,
}

-- The events of `k` numbers from `n` on.
abbrev pub numbered : (ℕ → InputEvent) → ℕ → ℕ → List InputEvent
numbered evs n zero = []
numbered evs n (suc k) = evs n ∷ numbered evs (n + 1) k

module _ (evs : ℕ → InputEvent) (seen : ℕ → Bool) where
  -- What waits is what has arrived from the number `next` on.
  abbrev pub Held : ℕ → List (ℕ × InputEvent) → Type 0
  Held next pending =
      (j : ℕ) → lookup j pending ≡ (if seen j && leb next j then some (evs j) else none)

  -- The loop lets `k` events through and stops at one that has not arrived.
  pub record LetThrough (next : ℕ) (ready : List InputEvent) (a : Inputs) : Type 0 where
    pub k : ℕ
    pub ready_eq : ready ≡ numbered evs next k
    pub next_eq : a.input_next_id ≡ next + k
    pub here : (i : ℕ) → i < k → seen (next + i) ≡ true
    pub missing : seen (next + k) ≡ false
    pub held : Held (next + k) a.input_pending

  abbrev pub Bounded : Type 0
  Bounded = (j : ℕ) → seen j ≡ true → j + 1 < 2 ^ 64

  lookup-length : (j : ℕ) (m : List (ℕ × InputEvent)) → length m ≤ 0 → lookup j m ≡ none
  unfolding lookup
  lookup-length j [] h = refl
  lookup-length j (x ∷ m) h = absurd (omega arith)

  Held-delete :
      (next : ℕ) (pending : List (ℕ × InputEvent))
      → Held next pending
      → Held (next + 1) (delete next pending)
  Held-delete next pending h j = ground (arith, lookup-delete next j pending, h j)

  seen_from :
      (next k : ℕ)
      → seen next ≡ true
      → ((i : ℕ) → i < k → seen (next + 1 + i) ≡ true)
      → (i : ℕ) → i < suc k
      → seen (next + i) ≡ true
  seen_from next k was h zero lt = rw (add-zero next) was
  seen_from next k was h (suc i) lt =
      let at : next + suc i ≡ next + 1 + i = omega arith in rw at (h i (omega arith))

  pub take_ready-LetThrough :
      Bounded
      → (fuel next : ℕ) (pending : List (ℕ × InputEvent)) → length pending ≤ fuel
      → Held next pending
      → LetThrough next (take_ready fuel next pending).0 (take_ready fuel next pending).1
  unfolding take_ready
  take_ready-LetThrough bound zero next pending le h =
      let empty : lookup next pending ≡ none = lookup-length next pending le in
      record {
        k = 0;
        ready_eq = refl;
        next_eq = omega arith;
        here = λ i lt. absurd (omega arith);
        missing = ground (arith, h next, add-zero next);
        held = rw (add-zero next) h;
      }
  take_ready-LetThrough bound (suc fuel) next pending le h =
      elim (Option-cases (lookup next pending)) [
        | inl none_left ↦
            rw (none_left, take_ready)
              (record {
                k = 0;
                ready_eq = refl;
                next_eq = omega arith;
                here = λ i lt. absurd (omega arith);
                missing = ground (arith, h next, add-zero next);
                held = rw (add-zero next) h;
              })
        | inr (ev, found) ↦
            let was : seen next ≡ true = ground (arith, h next) in
            let same : ev ≡ evs next = ground (arith, h next) in
            let wraps : (next + 1) % 2 ^ 64 ≡ next + 1 = omega (arith, bound next was) in
            let t =
              take_ready-LetThrough bound fuel (next + 1) (delete next pending)
                (omega (arith, length-delete_lt next pending {v = ev} found))
                (Held-delete next pending h) in
            let at : next + suc t.k ≡ next + 1 + t.k = omega arith in
            rw (found, wraps, take_ready)
              (record {
                k = suc t.k;
                ready_eq = rw (same, t.ready_eq);
                next_eq = omega (arith, t.next_eq);
                here = seen_from next t.k was t.here;
                missing = rw at t.missing;
                held = rw at t.held;
              })
      ]

pub numbered-add :
    (evs : ℕ → InputEvent) (n j k : ℕ)
    → numbered evs n j ++ numbered evs (n + j) k ≡ numbered evs n (j + k)
numbered-add evs n zero k = rw (add-zero n, zero-add k)
numbered-add evs n (suc j) k =
    let at : n + suc j ≡ n + 1 + j = omega arith in
    let total : suc j + k ≡ suc (j + k) = omega arith in
    rw (at, total) (ap (◌∷◌ (evs n)) (numbered-add evs (n + 1) j k))
