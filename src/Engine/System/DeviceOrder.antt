-- ===== src/Engine/System/DeviceOrder.antt =====
-- The order of the packets in the two queues of the device.
use net_hive.Prelude.{◌≡◌, sym, ap, ◌∙◌, List, [], ◌++◌, Bytes}
use net_hive.Engine.{Payload, ChanRef, Maps, Engine}
use net_hive.Engine.System.{IsStart, Reach, here, next}
use net_hive.Engine.System.Moves.{packets_of, append_assoc}
use net_hive.Engine.System.Order.{all_entered, all_left, first_in_first_out}
use net_hive.Engine.System.Carried.{
  Side, reader_in, reader_out, writer_in, writer_out, passed, Carried, Step-CarriedBoth,
}

module _ (T : Maps) where
  -- The packets that a run puts on a queue at one end or takes from it at the other.
  unfoldable pub all_passed : {e e' : Engine T} → Side → Reach T e e' → List Bytes
  all_passed side here = []
  all_passed side (next r st) = all_passed side r ++ passed T side st

  -- One step more of a queue that keeps its order.
  longer :
      (before after : List Payload) (came went c d : List Bytes)
      → came ≡ went ++ packets_of before
      → Carried T before after c d
      → came ++ c ≡ (went ++ d) ++ packets_of after
  longer before after came went c d h step =
      ap (λ l. l ++ c) h
      ∙ append_assoc went (packets_of before) c
      ∙ ap (λ l. went ++ l) step
      ∙ sym (append_assoc went d (packets_of after))

  device_in_order :
      {e e' : Engine T}
      → IsStart T e
      → (r : Reach T e e')
      → (all_passed reader_in r ≡ all_passed reader_out r ++ packets_of e'.dev_reader)
        × (all_passed writer_in r ≡ all_passed writer_out r ++ packets_of e'.dev_writer)
  unfolding all_passed packets_of
  device_in_order s here = (sym (ap packets_of s.reader_empty), sym (ap packets_of s.writer_empty))
  device_in_order {e} {e'} s (next {f} r st) =
      let (before_r, before_w) = device_in_order s r in
      let (step_r, step_w) = Step-CarriedBoth T st in
      (
        longer f.dev_reader e'.dev_reader _ _ (passed T reader_in st) (passed T reader_out st)
            before_r step_r,
        longer f.dev_writer e'.dev_writer _ _ (passed T writer_in st) (passed T writer_out st)
            before_w step_w,
      )

  -- The packets stay in order, in every queue. In every run from a start without connections and
  -- with empty queues: the packets that `RoutineTUNReader` has queued are those that
  -- `RoutineRouteTableWriter` has taken and then those that wait in `devReader`; those that it has
  -- put on the channel of a peer are those that were taken from it to be written to the peer and
  -- then those that wait in it; and the messages that the reading loops of all streams have
  -- received are those that `RoutineTUNWriter` has written to the device and then those that wait
  -- in `devWriter`. All are in the same order: none is lost in a queue, none comes twice, and none
  -- overtakes another.
  pub queues_in_order :
      {e e' : Engine T}
      → IsStart T e
      → (r : Reach T e e')
      → (all_passed reader_in r ≡ all_passed reader_out r ++ packets_of e'.dev_reader)
        × ((c : ChanRef) → all_entered T r c ≡ all_left T r c ++ packets_of (e'.net.chans c))
        × (all_passed writer_in r ≡ all_passed writer_out r ++ packets_of e'.dev_writer)
  queues_in_order s r =
      let (reader, writer) = device_in_order s r in (reader, first_in_first_out T s r, writer)
