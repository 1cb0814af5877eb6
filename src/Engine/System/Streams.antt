-- ===== src/Engine/System/Streams.antt =====
-- The iterations that open no stream, and accept none.
use net_hive.Prelude.{
  ◌≡◌, refl, sym, ◌∙◌, inl, inr, Option, none, some, Bytes, Option-cases, List-cases, subst_some,
}
use net_hive.Engine.{Maps, Engine, try_send}
use net_hive.Engine.Routine
use net_hive.Engine.Routine.{tun_reader, tun_writer, payload_get}
use net_hive.Engine.Routine.Reader.{tun_reader_lem}
use net_hive.Engine.Stream.{peer_receive}

module _ (T : Maps) where
  abbrev pub SameStreams : Engine T → Engine T → Type 0
  SameStreams e e' = (e'.streams ≡ e.streams) × (e'.handlers ≡ e.handlers)

  pub read-Streams :
      (e e' : Engine T) (r : Option Bytes) (o : Routine.ReaderOutcome)
      → tun_reader T r e ≡ some (o, e')
      → SameStreams e e'
  unfolding tun_reader
  read-Streams e e' none o h =
      subst_some (λ (x : Routine.ReaderOutcome × Engine T). SameStreams e x.1) _ (o, e') h
        (refl, refl)
  read-Streams e e' (some packet) o h =
      let (out, got, (frame, _)) = tun_reader_lem T packet e in
      subst_some (λ (x : Routine.ReaderOutcome × Engine T). SameStreams e x.1) out (o, e')
        (sym got ∙ h) (frame.streams, frame.handlers)

  pub write-Streams :
      (e e' : Engine T) (b : Bytes) → tun_writer T e ≡ some (b, e') → SameStreams e e'
  unfolding tun_writer
  write-Streams e e' b h = elim (List-cases e.dev_writer) [
    | inl empty ↦ cc (rw (empty, tun_writer) at h)
    | inr (p, ps, queue) ↦
        subst_some (λ (x : Bytes × Engine T). SameStreams e x.1) _ (b, e')
          (rw (queue, tun_writer) at h) (refl, refl)
  ]

  pub receive-Streams :
      (e e' : Engine T) (msg : Bytes) → peer_receive T msg e ≡ some e' → SameStreams e e'
  unfolding peer_receive
  receive-Streams e e' msg h =
      let p = record (payload_get e.payloads).0 { bytes = msg } in
      elim (Option-cases (try_send e.dev_writer p)) [
        | inl stuck ↦ cc (rw stuck at h)
        | inr (q, room) ↦
            subst_some (λ (x : Engine T). SameStreams e x) _ e' (rw room at h) (refl, refl)
      ]
