-- ===== src/Relay/Serve/Sessions.antt =====
-- All the connections of a relay together: runs of `serveRE2Agent` and `serveRE2Client` of
-- cmd/relay/re2.go, one for each connection, on the shared hub.
use runeverything.Relay.Serve.Agent.Limit.{serve_agent_frame-limiter, agent_gone-limiter}
use runeverything.Relay.Serve.Agent.{AgentStep, serve_agent_frame, agent_gone}
use runeverything.Base.Bytes.{Bytes}
use runeverything.Relay.Serve.Client.Counted.{serve_client_frame-Counted, client_gone-IsCounted}
use runeverything.Relay.Serve.Client.Capacity.{IsCounted, holds, added_zero}
use runeverything.Relay.Serve.Client.{
  ClientSession, new_session, ClientStep, serve_client_frame, client_gone,
}
use runeverything.Relay.Hub.{Hub, new_hub}
use runeverything.Relay.Serve.{RelayEnv}
use runeverything.Bandwidth.{Limiter, new_limiter}
use runeverything.Base.{
  ℕ, ◌+◌, ◌-◌, max, ◌≡◌, refl, ◌∙◌, true, false, Option, none, some, List, [], ◌∷◌, arith,
}
use runeverything.Base.Maps.{lookup, insert, nat_eq, bytes_eq_instance}
use runeverything.Re2.Frame.{Frame}

-- The loop variables of the clients' and the agents' connections; a connection that is not there
-- has those of the start.
pub record World : Type 0 where
  pub hub : Hub
  pub clients : List (ℕ × ClientSession)
  pub agents : List (ℕ × Bytes)

pub data Event : Type 0 where
  sends : RelayEnv → ℕ → Frame → Event
  leaves : ℕ → Event
  agent_sends : RelayEnv → ℕ → Frame → Event
  agent_leaves : ℕ → Event

or_new : Option ClientSession → ClientSession
unfolding new_session
or_new none = new_session
or_new (some s) = s

-- The deferred function runs, and the connection is as before its start.
leave : ℕ → ClientSession → World → World
unfolding client_gone new_session
leave c s w = record w { hub = client_gone c s w.hub; clients = insert c new_session w.clients }

after_frame : ℕ → World → ClientStep → World
unfolding leave
after_frame c w (h, s, true) = record w { hub = h; clients = insert c s w.clients }
after_frame c w (h, s, false) = leave c s (record w { hub = h })

or_empty : Option Bytes → Bytes
or_empty none = []
or_empty (some id) = id

after_agent_frame : ℕ → World → AgentStep → World
unfolding agent_gone
after_agent_frame c w (h, id, true) = record w { hub = h; agents = insert c id w.agents }
after_agent_frame c w (h, id, false) = record w {
  hub = agent_gone c id h;
  agents = insert c [] w.agents;
}

unfoldable pub step : World → Event → World
unfolding after_frame leave or_new after_agent_frame or_empty
step w (sends env c f) =
    after_frame c w (serve_client_frame env c f (or_new (lookup c w.clients)) w.hub)
step w (leaves c) = leave c (or_new (lookup c w.clients)) w
step w (agent_sends env c f) =
    after_agent_frame c w (serve_agent_frame env c f (or_empty (lookup c w.agents)) w.hub)
step w (agent_leaves c) = record w {
  hub = agent_gone c (or_empty (lookup c w.agents)) w.hub;
  agents = insert c [] w.agents;
}

unfoldable pub run : World → List Event → World
run w [] = w
run w (x ∷ xs) = run (step w x) xs

-- The sessions that are held.
unfoldable pub active : List (ℕ × ClientSession) → ℕ
active [] = 0
active ((c, s) ∷ m) = holds s + active m

abbrev others : ℕ → List (ℕ × ClientSession) → ℕ
others c m = active m - holds (or_new (lookup c m))

active-lookup :
    (c : ℕ) (m : List (ℕ × ClientSession)) → active m ≡ others c m + holds (or_new (lookup c m))
unfolding active lookup or_new new_session
active-lookup c [] = refl
active-lookup c ((x, s) ∷ m) = ground (arith, active-lookup c m)

active-insert :
    (c : ℕ) (s : ClientSession) (m : List (ℕ × ClientSession))
    → active (insert c s m) ≡ others c m + holds s
unfolding active lookup insert or_new new_session
active-insert c s [] = omega arith
active-insert c s ((x, t) ∷ m) = ground (arith, active-insert c s m, active-lookup c m)

abbrev pub IsCapped : ℕ → World → Type 0
IsCapped limit w = IsCounted limit (active w.clients) w.hub.limiter

leave-IsCapped :
    (limit c : ℕ) (s : ClientSession) (w : World)
    → IsCounted limit (others c w.clients + holds s) w.hub.limiter
    → IsCapped limit (leave c s w)
unfolding leave new_session
leave-IsCapped limit c s w v =
    rw (active-insert c new_session w.clients)
      (added_zero (client_gone-IsCounted limit (others c w.clients) c s w.hub v))

after_frame-IsCapped :
    (limit c : ℕ) (w : World) (r : ClientStep)
    → IsCounted limit (others c w.clients + holds r.1) r.0.limiter
    → IsCapped limit (after_frame c w r)
unfolding after_frame
after_frame-IsCapped limit c w (h, s, true) v = rw (active-insert c s w.clients) v
after_frame-IsCapped limit c w (h, s, false) v = leave-IsCapped limit c s (record w { hub = h }) v

recount : {limit m n : ℕ} {o : Option Limiter} → m ≡ n → IsCounted limit m o → IsCounted limit n o
recount e v = record {
  l = v.l;
  at = v.at;
  counts = v.counts ∙ e;
  admits = v.admits;
  le_max = omega (arith, v.le_max, e);
}

after_agent_frame-IsCapped :
    (limit c : ℕ) (w : World) (r : AgentStep)
    → r.0.limiter ≡ w.hub.limiter
    → IsCapped limit w
    → IsCapped limit (after_agent_frame c w r)
unfolding after_agent_frame
after_agent_frame-IsCapped limit c w (h, id, true) same v = rw same v
after_agent_frame-IsCapped limit c w (h, id, false) same v = rw (agent_gone-limiter c id h, same) v

step-IsCapped : (limit : ℕ) (w : World) (x : Event) → IsCapped limit w → IsCapped limit (step w x)
unfolding step
step-IsCapped limit w (sends env c f) v =
    let s = or_new (lookup c w.clients) in
    after_frame-IsCapped limit c w (serve_client_frame env c f s w.hub) (
      serve_client_frame-Counted limit (others c w.clients) env c f s w.hub
        (recount (active-lookup c w.clients) v))
step-IsCapped limit w (leaves c) v =
    leave-IsCapped limit c (or_new (lookup c w.clients)) w (recount (active-lookup c w.clients) v)
step-IsCapped limit w (agent_sends env c f) v =
    let id = or_empty (lookup c w.agents) in
    after_agent_frame-IsCapped limit c w (serve_agent_frame env c f id w.hub)
      (serve_agent_frame-limiter env c f id w.hub) v
step-IsCapped limit w (agent_leaves c) v =
    rw (agent_gone-limiter c (or_empty (lookup c w.agents)) w.hub) v

run-IsCapped :
    (limit : ℕ) (w : World) (xs : List Event) → IsCapped limit w → IsCapped limit (run w xs)
unfolding run
run-IsCapped limit w [] v = v
run-IsCapped limit w (x ∷ xs) v = run-IsCapped limit (step w x) xs (step-IsCapped limit w x v)

-- Whatever agents and controllers send, and whenever they leave, the limiter's count is the number of the
-- sessions that are held, and this is never more than the capacity, which is at least 1.
pub active-IsCapped :
    (capacity : ℕ) (xs : List Event)
    → IsCapped
        (max 1 capacity)
        (run (record { hub = new_hub capacity; clients = []; agents = [] }) xs)
unfolding new_hub new_limiter active
active-IsCapped capacity xs = run-IsCapped (max 1 capacity) _ xs (record {
  l = new_limiter capacity;
  at = refl;
  counts = refl;
  admits = ground arith;
  le_max = omega arith;
})
