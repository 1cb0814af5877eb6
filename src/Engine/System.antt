-- ===== src/Engine/System.antt =====
-- The engine's goroutines together (core/engine): one step is one iteration of one of their loops,
-- or one deferred call of a goroutine that ends. The loops meet only at channels and at maps whose
-- calls are atomic, and only `RoutineRouteTableWriter` adds goroutines, so its iterations may be
-- taken whole; nothing calls `addConnByID`.
pub mod Safety
pub mod Moves
pub mod Flag
pub mod Streams
pub mod Buffers
pub mod Handed
pub mod Held
pub mod Headers
pub mod Order
pub mod Carried
pub mod DeviceOrder
pub mod Drain
pub mod Progress
pub mod Deliver
pub mod Passive
mod Tests
use net_hive.Engine.{Payload, PeerId, ChanRef, Maps, running, leaving, Worker, Net, Engine}
use net_hive.Engine.Conn.{exit_addr, exit_id}
use net_hive.Engine.Routine.{ReaderOutcome, RouterOutcome, tun_reader, tun_writer, route_packet}
use net_hive.Engine.Stream.{peer_send, peer_receive, serves, vpn_handler}
use net_hive.Prelude.{◌≡◌, ◌⊎◌, Option, none, some, List, [], ◌∷◌, Bytes, Elem}

module _ (T : Maps) where
  -- `addConn` is in its loops for the channel.
  abbrev pub Runs : Engine T → ChanRef → Type 0
  Runs e c = (w : Worker) × (e.net.workers c ≡ some w) × (w.phase ≡ running) × Elem c e.streams

  -- A writing loop takes from the channel: that of `addConn`, or one of `VPNHandler`.
  abbrev pub Writes : Engine T → ChanRef → Type 0
  Writes e c = Runs e c ⊎ Elem c e.handlers

  pub data Step (e e' : Engine T) : Type 0 where
    -- `RoutineTUNReader`
    read : (r : Option Bytes) (o : ReaderOutcome) → tun_reader T r e ≡ some (o, e') → Step e e'
    -- `RoutineRouteTableWriter`
    route :
        (p : Payload) (ps : List Payload)
        → e.dev_reader ≡ p ∷ ps
        → e' ≡ (route_packet T p (record e { dev_reader = ps })).1
        → Step e e'
    -- `RoutineTUNWriter`
    write : (b : Bytes) → tun_writer T e ≡ some (b, e') → Step e e'
    -- `addConn` has found its peer and opened a stream to it.
    dial :
        (c : ChanRef) (w : Worker)
        → e.net.workers c ≡ some w
        → w.phase ≡ running
        → e' ≡ record e { streams = c ∷ e.streams }
        → Step e e'
    -- `VPNHandler` gets a stream of a peer, and serves it.
    serve :
        (id : PeerId) (c : ChanRef)
        → vpn_handler T id e.net ≡ serves c
        → e' ≡ record e { handlers = c ∷ e.handlers }
        → Step e e'
    -- The two loops of a stream.
    send : (c : ChanRef) (b : Bytes) → Writes e c → peer_send T c e ≡ some (b, e') → Step e e'
    receive : (msg : Bytes) → peer_receive T msg e ≡ some e' → Step e e'
    -- The end of `addConn`, with its deferred calls.
    leave :
        (c : ChanRef) (w : Worker)
        → e.net.workers c ≡ some w
        → w.phase ≡ running
        → e' ≡ record e { net = exit_addr T c w e.net }
        → Step e e'
    end :
        (c : ChanRef) (w : Worker)
        → e.net.workers c ≡ some w
        → w.phase ≡ leaving
        → e' ≡ record e { net = exit_id T c w e.net }
        → Step e e'

  -- After `Run` has stored the routes and started the loops: no connection, no stream and empty
  -- queues.
  pub record IsStart (e : Engine T) : Type 0 where
    pub no_workers : (c : ChanRef) → e.net.workers c ≡ none
    pub no_queues : (c : ChanRef) → e.net.chans c ≡ []
    pub id_empty : e.net.table.id ≡ T.id.empty
    pub addr_empty : e.net.table.addr ≡ T.addr.empty
    pub reader_empty : e.dev_reader ≡ []
    pub writer_empty : e.dev_writer ≡ []
    pub no_streams : e.streams ≡ []
    pub no_handlers : e.handlers ≡ []

  pub data Reach (e : Engine T) : Engine T → Type 0 where
    here : Reach e e
    next : {f g : Engine T} → Reach e f → Step f g → Reach e g
