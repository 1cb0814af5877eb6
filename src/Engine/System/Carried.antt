-- ===== src/Engine/System/Carried.antt =====
-- What one step does to the two queues of the device: what comes in at one end goes out at the
-- other.
use net_hive.Prelude.{
  ◌≡◌, refl, sym, ap, ◌∙◌, inl, inr, Option, none, some, List, [], ◌∷◌, ◌++◌, Bytes, Option-cases,
  List-cases, subst_some,
}
use net_hive.Engine.{Payload, ChanRef, Maps, Engine, try_send, try_send-some}
use net_hive.Engine.Routine.{
  ReaderOutcome, read_error, invalid, group_off, queued, queue_full, tun_reader, tun_writer,
  payload_get,
}
use net_hive.Engine.Routine.Reader.{Read, tun_reader_lem}
use net_hive.Engine.Routine.Router.{route_packet-SameDev}
use net_hive.Engine.Stream.{peer_send, peer_receive}
use net_hive.Engine.System.{Step, read, route, write, dial, serve, send, receive, leave, end}
use net_hive.Engine.System.Moves.{packets_of, packets_of-append, append_nil}

-- What an iteration of `RoutineTUNReader` puts on `devReader`.
unfoldable pub read_in : Option Bytes → ReaderOutcome → List Bytes
read_in none o = []
read_in (some b) read_error = []
read_in (some b) invalid = []
read_in (some b) group_off = []
read_in (some b) queued = b ∷ []
read_in (some b) queue_full = []

-- The two ends of `devReader`, and those of `devWriter`.
pub data Side : Type 0 where
  reader_in reader_out writer_in writer_out : Side

module _ (T : Maps) where
  -- The packets that a step puts on a queue at one end or takes from it at the other.
  unfoldable pub passed : {e e' : Engine T} → Side → Step T e e' → List Bytes
  passed reader_in (read r o h) = read_in r o
  passed reader_out (route p ps h same) = p.bytes ∷ []
  passed writer_in (receive msg h) = msg ∷ []
  passed writer_out (write b h) = b ∷ []
  passed _ _ = []

  -- What a queue had, and then what comes, is what goes, and then what it has.
  abbrev pub Carried : (before after : List Payload) (came went : List Bytes) → Type 0
  Carried before after came went = packets_of before ++ came ≡ went ++ packets_of after

  abbrev pub CarriedBoth : Engine T → Engine T → (ri ro wi wo : List Bytes) → Type 0
  CarriedBoth e e' ri ro wi wo =
      Carried e.dev_reader e'.dev_reader ri ro × Carried e.dev_writer e'.dev_writer wi wo

  same-Carried : (q q' : List Payload) → q' ≡ q → Carried q q' [] []
  same-Carried q q' same = append_nil (packets_of q) ∙ ap packets_of (sym same)

  append-Carried :
      (q q' : List Payload) (p : Payload) (b : Bytes)
      → q' ≡ q ++ p ∷ []
      → p.bytes ≡ b
      → Carried q q' (b ∷ []) []
  unfolding packets_of
  append-Carried q q' p b last is =
      ap (λ x. packets_of q ++ x ∷ []) (sym is)
      ∙ sym (packets_of-append q (p ∷ []))
      ∙ ap packets_of (sym last)

  head-Carried :
      (q q' ps : List Payload) (p : Payload) (b : Bytes)
      → q ≡ p ∷ ps
      → q' ≡ ps
      → p.bytes ≡ b
      → Carried q q' [] (b ∷ [])
  unfolding packets_of
  head-Carried q q' ps p b queue rest is =
      append_nil (packets_of q) ∙ ap packets_of queue ∙ (λ i. is i ∷ packets_of ((sym rest) i))

  reader_outcome-Carried :
      (packet : Bytes) (e e' : Engine T) (o : ReaderOutcome)
      → Read T packet e e' o
      → Carried e.dev_reader e'.dev_reader (read_in (some packet) o) []
  unfolding read_in
  reader_outcome-Carried packet e e' read_error r = absurd r
  reader_outcome-Carried packet e e' invalid (_, reader, _) = same-Carried e.dev_reader _ reader
  reader_outcome-Carried packet e e' group_off (_, _, _, reader, _) =
      same-Carried e.dev_reader _ reader
  reader_outcome-Carried packet e e' queued (_, p, bytes, _, _, last, _) =
      append-Carried e.dev_reader e'.dev_reader p packet last bytes
  reader_outcome-Carried packet e e' queue_full (_, _, reader, _) =
      same-Carried e.dev_reader _ reader

  read-CarriedBoth :
      (e e' : Engine T) (r : Option Bytes) (o : ReaderOutcome)
      → tun_reader T r e ≡ some (o, e')
      → CarriedBoth e e' (read_in r o) [] [] []
  unfolding tun_reader read_in
  read-CarriedBoth e e' none o h =
      subst_some (λ (x : ReaderOutcome × Engine T). CarriedBoth e x.1 [] [] [] []) _ (o, e') h
        (same-Carried e.dev_reader _ refl, same-Carried e.dev_writer _ refl)
  read-CarriedBoth e e' (some packet) o h =
      let ((o1, e1), got, (frame, what)) = tun_reader_lem T packet e in
      subst_some
        (λ (x : ReaderOutcome × Engine T). CarriedBoth e x.1 (read_in (some packet) x.0) [] [] [])
        (o1, e1) (o, e') (sym got ∙ h)
        (
          reader_outcome-Carried packet e e1 o1 what,
          same-Carried e.dev_writer e1.dev_writer frame.dev_writer,
        )

  write-CarriedBoth :
      (e e' : Engine T) (b : Bytes)
      → tun_writer T e ≡ some (b, e')
      → CarriedBoth e e' [] [] [] (b ∷ [])
  unfolding tun_writer
  write-CarriedBoth e e' b h = elim (List-cases e.dev_writer) [
    | inl empty ↦ cc (rw (empty, tun_writer) at h)
    | inr (p, ps, queue) ↦
        subst_some (λ (x : Bytes × Engine T). CarriedBoth e x.1 [] [] [] (x.0 ∷ [])) _ (b, e')
          (rw (queue, tun_writer) at h)
          (
            same-Carried e.dev_reader _ refl,
            head-Carried e.dev_writer ps ps p p.bytes queue refl refl,
          )
  ]

  send-CarriedBoth :
      (e e' : Engine T) (c : ChanRef) (b : Bytes)
      → peer_send T c e ≡ some (b, e')
      → CarriedBoth e e' [] [] [] []
  unfolding peer_send
  send-CarriedBoth e e' c b h = elim (List-cases (e.net.chans c)) [
    | inl empty ↦ cc (rw (empty, peer_send) at h)
    | inr (p, ps, queue) ↦
        subst_some (λ (x : Bytes × Engine T). CarriedBoth e x.1 [] [] [] []) _ (b, e')
          (rw (queue, peer_send) at h)
          (same-Carried e.dev_reader _ refl, same-Carried e.dev_writer _ refl)
  ]

  receive-CarriedBoth :
      (e e' : Engine T) (msg : Bytes)
      → peer_receive T msg e ≡ some e'
      → CarriedBoth e e' [] [] (msg ∷ []) []
  unfolding peer_receive
  receive-CarriedBoth e e' msg h =
      let p = record (payload_get e.payloads).0 { bytes = msg } in
      elim (Option-cases (try_send e.dev_writer p)) [
        | inl stuck ↦ cc (rw stuck at h)
        | inr (q, room) ↦
            let is = (try_send-some e.dev_writer p q room).0 in
            subst_some (λ (x : Engine T). CarriedBoth e x [] [] (msg ∷ []) []) _ e' (rw room at h)
              (same-Carried e.dev_reader _ refl, append-Carried e.dev_writer q p msg is refl)
      ]

  pub Step-CarriedBoth :
      {e e' : Engine T} (st : Step T e e')
      → CarriedBoth e e'
          (passed reader_in st)
          (passed reader_out st)
          (passed writer_in st)
          (passed writer_out st)
  unfolding passed
  Step-CarriedBoth {e} {e'} (read r o h) = read-CarriedBoth e e' r o h
  Step-CarriedBoth {e} {e'} (route p ps h same) =
      let (reader, writer, _) = route_packet-SameDev T p (record e { dev_reader = ps }) in
      (
        head-Carried e.dev_reader e'.dev_reader ps p p.bytes h
            (ap (λ (x : Engine T). x.dev_reader) same ∙ reader) refl,
        same-Carried e.dev_writer e'.dev_writer (ap (λ (x : Engine T). x.dev_writer) same ∙ writer),
      )
  Step-CarriedBoth {e} {e'} (write b h) = write-CarriedBoth e e' b h
  Step-CarriedBoth {e} {e'} (send c b w h) = send-CarriedBoth e e' c b h
  Step-CarriedBoth {e} {e'} (receive msg h) = receive-CarriedBoth e e' msg h
  Step-CarriedBoth {e} {e'} (dial c w at runs same) = (
    same-Carried e.dev_reader e'.dev_reader (ap (λ (x : Engine T). x.dev_reader) same),
    same-Carried e.dev_writer e'.dev_writer (ap (λ (x : Engine T). x.dev_writer) same),
  )
  Step-CarriedBoth {e} {e'} (serve id c takes same) = (
    same-Carried e.dev_reader e'.dev_reader (ap (λ (x : Engine T). x.dev_reader) same),
    same-Carried e.dev_writer e'.dev_writer (ap (λ (x : Engine T). x.dev_writer) same),
  )
  Step-CarriedBoth {e} {e'} (leave c w at runs same) = (
    same-Carried e.dev_reader e'.dev_reader (ap (λ (x : Engine T). x.dev_reader) same),
    same-Carried e.dev_writer e'.dev_writer (ap (λ (x : Engine T). x.dev_writer) same),
  )
  Step-CarriedBoth {e} {e'} (end c w at leaves same) = (
    same-Carried e.dev_reader e'.dev_reader (ap (λ (x : Engine T). x.dev_reader) same),
    same-Carried e.dev_writer e'.dev_writer (ap (λ (x : Engine T). x.dev_writer) same),
  )
