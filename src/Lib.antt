-- ===== src/Lib.antt =====
-- RunEverything connects a controller (a phone) to an agent (a computer) through a relay. An agent
-- registers at the relay and shows a pairing token; a controller redeems the token for a session
-- ticket and binds to the device with it. The relay forwards frames that it cannot read. Beside
-- the stream of frames there are datagrams (REUDP) with their own reliable stream.
--
-- Files, with the code that each is about:
--   Base, Base/*           shared tests, lists, bytes, big-endian words, bits, maps; the interface to
--                          float64 with the laws that are relied on
--   Reudp/Packet           internal/reudp/packet.go: Encode, Decode, EncodeAck, DecodeAck
--   Reudp/Congestion       internal/reudp/congestion.go: the congestion window and the pacing
--   Reudp/Address          internal/reudp/endpoint.go: comparison of addresses
--   Reudp/Endpoint         internal/reudp/endpoint.go: the state and the paths that are written to
--   Reudp/Receive          internal/reudp/endpoint.go: readLoopConn, handleAck, handleData, sendAck
--   Reudp/Send             internal/reudp/endpoint.go: sendData and retransmitLoop
--   Reudp/Link             internal/reudp/endpoint.go: two endpoints and a network that loses, repeats
--                          and reorders; Link/Fifo and Link/Again have the theorems about their runs
--   Re2/Frame, Re2/Message internal/re2/frame.go: outer frames, inner messages, terminal data
--   Re2/Video, Re2/Channel internal/re2/video.go and internal/re2/channel.go
--   Auth                   internal/auth/auth.go
--   Bandwidth              internal/bandwidth/bandwidth.go
--   Relay/Hub, Relay/Bind  cmd/relay/main.go and cmd/relay/re2.go: the hub's state, registration and
--                          the exclusive bind
--   Relay/Serve/*          cmd/relay/re2.go: serveRE2Agent and serveRE2Client, a frame at a time, with
--                          their deferred functions; Sessions runs all the connections together
--   Relay/Udp              cmd/relay/udp.go: associations, their rate limit, forwarding
--   Desktop/Abr            internal/desktop/abr.go: the controller, its sizes and its ladder
--   Desktop/Abr/Stats      internal/desktop/abr.go: OnStatsSample
--   Node/Url, Node/Store   internal/p2p/peerstore.go: addresses and the table of relays; outboundMsg
--                          of internal/p2p/gossip.go
--   Node/Crawl             internal/p2p/crawl.go: Crawl, from the seeds to the relays they know
--   Node/Select            internal/p2p/crawl.go and internal/p2p/resolve.go: SelectLowestPing and
--                          dedupeRelays
--   Node/Load              internal/p2p/select_load.go: the selection by latency and load
--   Node/Registry          internal/directory/registry.go
--   Agent/Tokens           cmd/agent/psktokens.go: the pairing tokens that handshakes are tried with
--   Agent/Input            cmd/agent/desktop.go: numbered input put into order, the channel, the pump
--   Agent/Session          cmd/agent/main.go, desktop.go and re2.go in cmd/agent: what an agent keeps
--                          about its controller, and what takes it away again
--   Agent/Session/Tunnel   cmd/agent/desktop.go: sendTunnel, and sendData of cmd/agent/datachan.go
--   Agent/Session/Inner    cmd/agent/re2.go and cmd/agent/datachan.go: handleRE2Inner, handleDataInner
--   Agent/Session/Relayed  cmd/agent/re2.go and cmd/agent/datachan.go: runLoopRE2, a frame at a time,
--                          and handleDataFrame
--   Agent/Session/Datagrams  cmd/agent/desktop.go: handleUDPPayload, completeUDPNoise, startUDP
--   Agent/Session/Run      all that reaches an agent, as events: frames, datagrams, timers, handshakes;
--                          beside it the proofs
--   Examples/*             runs of the theorems at concrete inputs
--
-- A struct is a record and a method takes it and returns the new one; a Go map is an association
-- list whose order stands for the order of an iteration. A word of w bits is a natural number, and
-- a wrap-around is written out. A socket is a function that tells whether a datagram was taken, and
-- the datagrams handed over are recorded. Time is a number.
--
-- A method that holds its lock runs as one step. The two waits that let others run are shown: a
-- reader may take payloads while handleData waits for room, and the world may change the endpoint
-- between two looks at the window in sendData. A frame at the relay is served as one step, so
-- other connections come between frames and not between the calls for one frame. Random tokens,
-- JSON, float64 and the clock are arguments.
--
-- An agent serves one event as one step. A handshake comes with its outcome. On the main loop and on
-- the datagrams it is part of the step of its first message, and what the other goroutines do to the
-- agent while it waits is an argument; on the data channel its end is an event of its own. What they
-- do while sendTunnel sleeps is an argument too.
--
-- Bounds: the wait of sendData looks 500 times, as in the code. The loop of handleData runs as often
-- as the buffer has payloads, and each round takes one out, so this is enough. The loop of Crawl has
-- 64 rounds, as many as relays can be put in. sendTunnel looks 2000 times at the window, as in the
-- code. The loop of enqueueDesktopInput has as many rounds as events wait, and each takes one out.
--
-- Not modelled: sockets and deadlines, cryptography, JSON texts, capture on the desktop and the
-- injection of input, the opening of a desktop, terminals' bytes, files, cameras and other devices, the
-- agent's links to further relays, the requests that relays send each other.
pub mod Base
pub mod Reudp
pub mod Re2
pub mod Auth
pub mod Bandwidth
pub mod Relay
pub mod Desktop
pub mod Node
pub mod Agent
pub mod Examples
