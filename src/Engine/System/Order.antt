-- ===== src/Engine/System/Order.antt =====
-- The order of the packets for a peer.
use net_hive.Prelude.{◌≡◌, sym, ap, ◌∙◌, List, [], ◌++◌, Bytes}
use net_hive.Engine.{ChanRef, Maps, Engine}
use net_hive.Engine.Conn
use net_hive.Engine.Conn.Lookup.{IsNet}
use net_hive.Engine.Routine.{route_packet}
use net_hive.Engine.System.{
  Step, read, route, write, dial, serve, send, receive, leave, end, IsStart, Reach, here, next,
}
use net_hive.Engine.System.Moves.{
  at_channel, arrived, packets_of, append_assoc, Balanced, still, read-still, write-still,
  receive-still, send-Balanced, route_packet-Moved,
}
use net_hive.Engine.System.Safety.{Reach-IsValid}

module _ (T : Maps) where
  -- What a step puts on a channel, and what it takes from one and writes to the stream.
  pub entered : {e e' : Engine T} → Step T e e' → ChanRef → List Bytes
  entered {e} (route p ps h same) c =
      arrived (route_packet T p (record e { dev_reader = ps })).0 c p.bytes
  entered _ c = []

  pub left : {e e' : Engine T} → Step T e e' → ChanRef → List Bytes
  left (send d b w h) c = at_channel c d b
  left _ c = []

  -- The same for a run, from the first step to the last.
  pub all_entered : {e e' : Engine T} → Reach T e e' → ChanRef → List Bytes
  all_entered here c = []
  all_entered (next r st) c = all_entered r c ++ entered st c

  pub all_left : {e e' : Engine T} → Reach T e e' → ChanRef → List Bytes
  all_left here c = []
  all_left (next r st) c = all_left r c ++ left st c

  Step-Balanced :
      {e e' : Engine T} (st : Step T e e')
      → IsNet T e.net
      → (c : ChanRef) → Balanced T e e' c (entered st c) (left st c)
  unfolding entered left Conn.exit_addr Conn.exit_id
  Step-Balanced {e} {e'} (read r o h) v c =
      still T e e' c (ap (λ n. n.chans c) (read-still T e e' r o h))
  Step-Balanced {e} {e'} (route p ps h same) v c = sym (
      ap (λ (x : Engine T). packets_of (x.net.chans c)) same
      ∙ route_packet-Moved T p (record e { dev_reader = ps }) v c)
  Step-Balanced {e} {e'} (write b h) v c =
      still T e e' c (ap (λ n. n.chans c) (write-still T e e' b h))
  Step-Balanced {e} {e'} (send d b w h) v c = send-Balanced T e e' d b h c
  Step-Balanced {e} {e'} (receive msg h) v c =
      still T e e' c (ap (λ n. n.chans c) (receive-still T e e' msg h))
  Step-Balanced {e} {e'} (dial d w at runs same) v c =
      still T e e' c (ap (λ (x : Engine T). x.net.chans c) same)
  Step-Balanced {e} {e'} (serve id d takes same) v c =
      still T e e' c (ap (λ (x : Engine T). x.net.chans c) same)
  Step-Balanced {e} {e'} (leave d w at runs same) v c =
      still T e e' c (ap (λ (x : Engine T). x.net.chans c) same)
  Step-Balanced {e} {e'} (end d w at leaves same) v c =
      still T e e' c (ap (λ (x : Engine T). x.net.chans c) same)

  -- The packets for a peer stay in order. In every run from a start without connections and with
  -- empty queues, the packets that `RoutineRouteTableWriter` has put on a channel are those that
  -- were taken from it to be written to the peer and then those that wait in it, in the same order:
  -- none is lost there, none comes twice, and none overtakes another.
  pub first_in_first_out :
      {e e' : Engine T}
      → IsStart T e
      → (r : Reach T e e') (c : ChanRef)
      → all_entered r c ≡ all_left r c ++ packets_of (e'.net.chans c)
  unfolding all_entered all_left packets_of
  first_in_first_out {e} s here c = sym (ap packets_of (s.no_queues c))
  first_in_first_out {e} {e'} s (next {f} r st) c =
      let before = first_in_first_out s r c in
      let step = Step-Balanced st (Reach-IsValid T s r).net c in
      ap (λ l. l ++ entered st c) before
      ∙ append_assoc (all_left r c) (packets_of (f.net.chans c)) (entered st c)
      ∙ ap (λ l. all_left r c ++ l) step
      ∙ sym (append_assoc (all_left r c) (left st c) (packets_of (e'.net.chans c)))
