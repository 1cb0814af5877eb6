-- ===== src/Engine/Stream/Reads.antt =====
-- The messages of a stream on their way to the device.
use net_hive.Prelude.{
  ◌+◌, ◌≤◌, ◌<◌, ◌≡◌, refl, sym, ap, ◌∙◌, Bool, true, false, Option, none, some, List, [], ◌∷◌,
  ◌++◌, arith, ltb, lt→ltb, Bytes, length, length-append,
}
use net_hive.Engine.{Maps, Engine, try_send, chan_size}
use net_hive.Engine.Routine.{payload_get, get_buffer}
use net_hive.Engine.Stream.{peer_receive, read_loop}
use net_hive.Engine.System.{Step, receive, Reach, here, next}
use net_hive.Engine.System.Moves.{packets_of, packets_of-append, append_assoc, append_nil}

-- The messages before the first error.
unfoldable pub received : List (Option Bytes) → List Bytes
received [] = []
received (none ∷ msgs) = []
received (some msg ∷ msgs) = msg ∷ received msgs

unfoldable pub has_error : List (Option Bytes) → Bool
has_error [] = false
has_error (none ∷ msgs) = true
has_error (some msg ∷ msgs) = has_error msgs

module _ (T : Maps) where
  before : {e f g : Engine T} → Step T e f → Reach T f g → Reach T e g
  before st here = next here st
  before st (next r last) = next (before st r) last

  -- A message, at a queue with room.
  peer_receive-some :
      (msg : Bytes) (e : Engine T)
      → length e.dev_writer < chan_size
      → (e' : Engine T) × (peer_receive T msg e ≡ some e')
        × (packets_of e'.dev_writer ≡ packets_of e.dev_writer ++ msg ∷ [])
        × (length e'.dev_writer ≡ length e.dev_writer + 1)
        × (e'.net ≡ e.net)
        × (e'.dev_reader ≡ e.dev_reader)
  unfolding peer_receive try_send
  peer_receive-some msg e room =
      let (p, ps) = payload_get e.payloads in
      let fits : ltb (length e.dev_writer) chan_size ≡ true = lt→ltb _ _ room in
      let q = e.dev_writer ++ record p { bytes = msg } ∷ [] in
      (
        record (get_buffer T e) { payloads = ps; dev_writer = q },
        rw fits refl,
        packets_of-append e.dev_writer (record p { bytes = msg } ∷ []) ∙ unfold packets_of in refl,
        length-append e.dev_writer (record p { bytes = msg } ∷ []),
        refl,
        refl,
      )

  -- A stream is read in order. While `devWriter` has room for all its messages, the reading loop
  -- takes each message up to the first error of `ReadMsg`, with which it returns, and puts it whole
  -- at the end of `devWriter`, in the order in which they came; nothing of the route table, the
  -- channels or `devReader` changes.
  pub read_loop_lem :
      (msgs : List (Option Bytes)) (e : Engine T)
      → length e.dev_writer + length msgs ≤ chan_size
      → let (ends, e') = read_loop T msgs e in
        (ends ≡ has_error msgs)
        × (packets_of e'.dev_writer ≡ packets_of e.dev_writer ++ received msgs)
        × (e'.net ≡ e.net)
        × (e'.dev_reader ≡ e.dev_reader)
        × Reach T e e'
  unfolding read_loop received has_error
  read_loop_lem [] e room = (refl, sym (append_nil (packets_of e.dev_writer)), refl, refl, here)
  read_loop_lem (none ∷ msgs) e room =
      (refl, sym (append_nil (packets_of e.dev_writer)), refl, refl, here)
  read_loop_lem (some msg ∷ msgs) e room =
      let (e', got, packets, longer, net, reader) = peer_receive-some msg e (omega arith) in
      let (ends, rest, same, still, run) = read_loop_lem msgs e' (omega arith) in
      rw (got, read_loop)
        (
          ends,
          rest
              ∙ ap (λ l. l ++ received msgs) packets
              ∙ append_assoc (packets_of e.dev_writer) (msg ∷ []) (received msgs),
          same ∙ net,
          still ∙ reader,
          before (receive msg got) run,
        )
