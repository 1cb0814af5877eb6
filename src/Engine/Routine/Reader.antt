-- ===== src/Engine/Routine/Reader.antt =====
-- What becomes of a packet that `RoutineTUNReader` reads.
use net_hive.Protocol.{Pool, pool_get, release_ip}
use net_hive.Protocol.Parse.{WellFormed, dec_WellFormed, decode, parse_ip-decode, parse_ip-reject}
use net_hive.Engine.{Payload, Maps, Engine, try_send, try_send-some, try_send-none, chan_size}
use net_hive.Engine.Routine.{
  ReaderOutcome, read_error, invalid, group_off, queued, queue_full, is_group, payload_get, enqueue,
  reader_parsed, tun_reader,
}
use net_hive.Prelude.{
  ◌+◌, ◌≤◌, ◌≡◌, refl, inl, inr, Bool, true, false, not, ◌&&◌, some, List, [], ◌∷◌, ◌++◌, arith,
  Bytes, Bool-cases, Option-cases, length, drop, ok,
}

module _ (T : Maps) where
  module _ (packet : Bytes) (e e' : Engine T) where
    -- What each outcome says of the packet and of the states before and after.
    abbrev pub Read : ReaderOutcome → Type 0
    Read read_error = ⊥
    Read invalid =
        (¬ WellFormed packet) × (e'.dev_reader ≡ e.dev_reader) × (e'.buffers ≡ e.buffers + 1)
    Read group_off =
        WellFormed packet
        × (is_group (decode packet).dst ≡ true)
        × (e.enable_broadcast ≡ false)
        × (e'.dev_reader ≡ e.dev_reader)
        × (e'.buffers ≡ e.buffers + 1)
    Read queued =
        WellFormed packet
        × (p : Payload) × (p.bytes ≡ packet)
        × (p.dst ≡ (decode packet).dst)
        × ((is_group p.dst && not e.enable_broadcast) ≡ false)
        × (e'.dev_reader ≡ e.dev_reader ++ p ∷ [])
        × (e'.buffers ≡ e.buffers + 1)
    Read queue_full =
        WellFormed packet
        × (chan_size ≤ length e.dev_reader)
        × (e'.dev_reader ≡ e.dev_reader)
        × (e'.buffers ≡ e.buffers)

  -- The frame of an iteration: the route table, the channels and `devWriter` stay, and `devReader`
  -- keeps its bound.
  pub record Framed (e e' : Engine T) : Type 0 where
    pub net : e'.net ≡ e.net
    pub dev_writer : e'.dev_writer ≡ e.dev_writer
    pub enable_broadcast : e'.enable_broadcast ≡ e.enable_broadcast
    pub streams : e'.streams ≡ e.streams
    pub handlers : e'.handlers ≡ e.handlers
    pub bounded : length e.dev_reader ≤ chan_size → length e'.dev_reader ≤ chan_size

  abbrev pub ReadAll : Bytes → Engine T → ReaderOutcome × Engine T → Type 0
  ReadAll packet e (o, e') = Framed e e' × Read packet e e' o

  -- The `select` at the end of an iteration.
  enqueue_lem :
      (packet : Bytes) (p : Payload) (e : Engine T) (pool : List Payload) (ps : Pool)
      → WellFormed packet
      → p.bytes ≡ packet
      → p.dst ≡ (decode packet).dst
      → (is_group p.dst && not e.enable_broadcast) ≡ false
      → ReadAll packet e
          (enqueue T p (record e { buffers = e.buffers + 1; payloads = pool; packets = ps }))
  unfolding enqueue
  enqueue_lem packet p e pool ps w bytes dst keep = elim (Option-cases (try_send e.dev_reader p)) [
    | inr (q, room) ↦
        let (is, small) = try_send-some e.dev_reader p q room in
        rw (room, enqueue)
          (
            record {
              net = refl;
              dev_writer = refl;
              enable_broadcast = refl;
              streams = refl;
              handlers = refl;
              bounded = λ _. small;
            },
            (w, p, bytes, dst, keep, is, refl),
          )
    | inl stuck ↦
        rw (stuck, enqueue)
          (
            record {
              net = refl;
              dev_writer = refl;
              enable_broadcast = refl;
              streams = refl;
              handlers = refl;
              bounded = λ h. h;
            },
            (w, try_send-none e.dev_reader p stuck, refl, omega arith),
          )
  ]

  and_split : (a b : Bool) → (a && not b) ≡ true → (a ≡ true) × (b ≡ false)
  and_split a b h = ground arith

  reader_parsed_lem :
      (packet : Bytes) (e : Engine T) (ps : Pool)
      → WellFormed packet
      → ReadAll packet e (
          reader_parsed T packet
            (ok (decode packet))
            (record e { buffers = e.buffers + 1; packets = ps }))
  unfolding reader_parsed
  reader_parsed_lem packet e ps w =
      elim (Bool-cases (is_group (decode packet).dst && not e.enable_broadcast)) [
        | inl drop ↦
            let (group, off) = and_split (is_group (decode packet).dst) e.enable_broadcast drop in
            rw drop (
              record {
                net = refl;
                dev_writer = refl;
                enable_broadcast = refl;
                streams = refl;
                handlers = refl;
                bounded = λ h. h;
              },
              (w, group, off, refl, refl),
            )
        | inr keep ↦
            let (p, rest) = payload_get e.payloads in
            rw keep (
              enqueue_lem packet (record p { dst = (decode packet).dst; bytes = packet }) e rest
                (release_ip ps (decode packet)) w refl refl keep)
      ]

  -- An iteration of `RoutineTUNReader` on the bytes of a packet returns, without a panic. It drops
  -- exactly the packets that are not well formed, the group packets while broadcast is disabled,
  -- and those that find `devReader` full; any other packet waits last in `devReader`, whole, under
  -- its destination address. A buffer of the pool is taken and comes back only in the case of a
  -- full queue. Nothing else of the engine changes but the pools, and `devReader` keeps its bound.
  pub tun_reader_lem :
      (packet : Bytes) (e : Engine T)
      → (out : ReaderOutcome × Engine T) × (tun_reader T (some packet) e ≡ some out)
        × ReadAll packet e out
  unfolding tun_reader
  tun_reader_lem packet e = elim (dec_WellFormed packet) [
    | yes w ↦ (
      _,
      rw (parse_ip-decode e.packets packet w),
      reader_parsed_lem packet e (pool_get e.packets).1 w,
    )
    | no bad ↦
        let (ps, rejected, kept) = parse_ip-reject e.packets packet bad in
        (
          (invalid, record e { buffers = e.buffers + 1; packets = ps }),
          rw rejected (unfold reader_parsed in refl),
          (
            record {
              net = refl;
              dev_writer = refl;
              enable_broadcast = refl;
              streams = refl;
              handlers = refl;
              bounded = λ h. h;
            },
            (bad, refl, refl),
          ),
        )
  ]
