-- ===== src/Reudp/Receive/Delivery/History.antt =====
-- Any history of an endpoint that receives: internal/reudp/endpoint.go, `handleData` and `Recv`.
use native.Mathlib.Nat.{zero-add}
use runeverything.Reudp.Receive.Delivery.Loop.{
  recv_many-stream, sent_from, sent_from-add, Stored, has,
}
use runeverything.Reudp.Receive.Delivery.Runs.{arrival, Arrived, handle_data-Arrived}
use runeverything.Reudp.Endpoint.{Endpoint, incoming_cap, stream, dial}
use runeverything.Reudp.Address.{Addr}
use runeverything.Reudp.Receive.{Env, recv_many, handle_data}
use runeverything.Base.Bytes.{Bytes}
use runeverything.Base.Float64.{Float64}
use runeverything.Base.{
  ℕ, ◌+◌, ◌^◌, ◌≤◌, ◌<◌, ◌≡◌, refl, ap, ◌∙◌, Bool, false, ◌||◌, none, List, [], ◌∷◌, arith, ltb,
  ◌==◌, is_some, length,
}
use runeverything.Base.Maps.{lookup, nat_eq}

-- A reliable datagram comes in, or the channel's reader takes payloads.
pub data Event : Type 0 where
  arrives : Env → ℕ → Event
  reader_takes : ℕ → Event

-- A datagram with that number came in.
pub arrived : ℕ → List Event → Bool
arrived s [] = false
arrived s (arrives env seq ∷ xs) = seq == s || arrived s xs
arrived s (reader_takes k ∷ xs) = arrived s xs

module _ {F : Type 0} ⦃fl : Float64 F⦄ (msgs : ℕ → Bytes) where
  unfoldable pub step : Endpoint F → Event → Endpoint F
  step ep (arrives env seq) = handle_data env (arrival msgs seq) ep
  step ep (reader_takes k) = record ep { incoming = recv_many k ep.incoming }

  pub run : Endpoint F → List Event → Endpoint F
  run ep [] = ep
  run ep (x ∷ xs) = run (step ep x) xs

  -- At each arrival the channel has room for all that waits, and the numbers do not wrap.
  abbrev pub Fits : Endpoint F → List Event → Type 0
  Fits ep [] = Unit {0}
  Fits ep (arrives env seq ∷ xs) =
      (length ep.incoming.buf + length ep.recv_buf + 1 ≤ incoming_cap)
      × (ep.next_expect + length ep.recv_buf + 1 < 2 ^ 32)
      × Fits (step ep (arrives env seq)) xs
  Fits ep (reader_takes k ∷ xs) = Fits (step ep (reader_takes k)) xs

  record InOrder (ep : Endpoint F) : Type 0 where
    streamed : stream ep.incoming ≡ sent_from msgs 0 ep.next_expect
    stored : Stored msgs ep.recv_buf
    missing : lookup ep.next_expect ep.recv_buf ≡ none

  Arrived-InOrder :
      (seq k : ℕ) (ep ep' : Endpoint F) → InOrder ep → Arrived msgs seq ep ep' k → InOrder ep'
  Arrived-InOrder seq k ep ep' v a = record {
    streamed =
        let total = rw zero-add at (sent_from-add msgs 0 ep.next_expect k) in
        rw (a.streamed, v.streamed, a.counted) total;
    stored = a.stored;
    missing = a.missing;
  }

  step-InOrder :
      (ep : Endpoint F) (x : Event) (xs : List Event)
      → Fits ep (x ∷ xs)
      → InOrder ep
      → InOrder (step ep x)
  unfolding step
  step-InOrder ep (arrives env seq) xs fit v =
      let (k, a) = handle_data-Arrived msgs env seq ep v.stored v.missing fit.0 fit.1 in
      Arrived-InOrder seq k ep _ v a
  step-InOrder ep (reader_takes k) xs fit v = record {
    streamed = (recv_many-stream k ep.incoming).0 ∙ v.streamed;
    stored = v.stored;
    missing = v.missing;
  }

  run-InOrder : (ep : Endpoint F) (xs : List Event) → Fits ep xs → InOrder ep → InOrder (run ep xs)
  unfolding run
  run-InOrder ep [] fit v = v
  run-InOrder ep (arrives env seq ∷ xs) fit v =
      run-InOrder (step ep (arrives env seq)) xs fit.2 (step-InOrder ep (arrives env seq) xs fit v)
  run-InOrder ep (reader_takes k ∷ xs) fit v =
      run-InOrder (step ep (reader_takes k)) xs fit (step-InOrder ep (reader_takes k) xs fit v)

  run-has :
      (ep : Endpoint F) (xs : List Event) (s : ℕ)
      → Fits ep xs
      → InOrder ep
      → has (run ep xs) s ≡ (arrived s xs || has ep s)
  unfolding run arrived
  run-has ep [] s fit v = refl
  run-has ep (arrives env seq ∷ xs) s fit v =
      let (k, a) = handle_data-Arrived msgs env seq ep v.stored v.missing fit.0 fit.1 in
      let ih =
        run-has (step ep (arrives env seq)) xs s fit.2
          (step-InOrder ep (arrives env seq) xs fit v) in
      let one : has (step ep (arrives env seq)) s ≡ (seq == s || has ep s) =
        unfold step in a.added s in
      ground (arith, ih, one)
  run-has ep (reader_takes k ∷ xs) s fit v =
      let ih =
        run-has (step ep (reader_takes k)) xs s fit (step-InOrder ep (reader_takes k) xs fit v) in
      let one : has (step ep (reader_takes k)) s ≡ has ep s = unfold step has in refl in
      ih ∙ ap (◌||◌ (arrived s xs)) one

module _ (F : Type 0) ⦃fl : Float64 F⦄ (msgs : ℕ → Bytes) where
  dial-InOrder : (relay : Addr) → InOrder {F = F} msgs (dial relay)
  unfolding dial lookup
  dial-InOrder relay = record { streamed = refl; stored = λ s b e. cc; missing = refl }

  -- Reliable datagrams come in in any order, any number of times, while the reader takes payloads
  -- at any pace; the channel has room for what waits, and the numbers do not wrap. Then the
  -- payloads put into the channel are those of the numbers 0, 1, 2, … up to the first number that
  -- never came, in this order and each once; and the endpoint has a number exactly if it came.
  pub delivered_in_order :
      (relay : Addr) (xs : List Event) (s : ℕ)
      → Fits {F = F} msgs (dial relay) xs
      → (n : ℕ) × (stream (run {F = F} msgs (dial relay) xs).incoming ≡ sent_from msgs 0 n)
        × (arrived n xs ≡ false)
        × (arrived s xs
            ≡ (ltb s n || is_some (lookup s (run {F = F} msgs (dial relay) xs).recv_buf)))
  delivered_in_order relay xs s fit =
      let v = run-InOrder msgs (dial relay) xs fit (dial-InOrder relay) in
      let fresh : (t : ℕ) → has (dial {F = F} relay) t ≡ false =
        λ t. unfold has dial lookup in ground arith in
      let came = λ (t : ℕ). run-has msgs (dial relay) xs t fit (dial-InOrder relay) in
      let n = (run {F = F} msgs (dial relay) xs).next_expect in
      let here : has (run {F = F} msgs (dial relay) xs) n ≡ false =
        unfold has in ground (arith, v.missing) in
      (
        n,
        v.streamed,
        ground (arith, here, came n, fresh n),
        unfold has in ground (arith, came s, fresh s),
      )
