-- ===== src/Engine/System/Progress.antt =====
-- The queues can always be emptied.
use net_hive.Prelude.{
  ℕ, zero, suc, ◌<◌, ◌≡◌, refl, sym, ap, subst, ◌∙◌, inl, inr, Option, List, [], ◌++◌, arith, Bytes,
  Elem,
}
use net_hive.Engine.{Payload, ChanRef, Maps, Engine, ℕ_discrete, Worker}
use net_hive.Engine.System.{
  Runs, read, route, write, dial, serve, send, receive, leave, end, IsStart, Reach, here, next,
}
use net_hive.Engine.System.Carried.{reader_in, reader_out, writer_in, writer_out, passed}
use net_hive.Engine.System.DeviceOrder.{all_passed, queues_in_order}
use net_hive.Engine.System.Drain.{
  NoRun, Runs-cases, IsDraining, followed_by, Drains, Drains-refl, Drains-trans, route_all,
  write_all, send_all,
}
use net_hive.Engine.System.Moves.{packets_of, append_nil}
use net_hive.Engine.System.Order.{all_entered, all_left}
use net_hive.Engine.System.Safety.{Reach-IsValid}
use native.Mathlib.Decide.{dec_le}

module _ (T : Maps) where
  -- Every channel below a bound whose goroutine runs is emptied, and nothing changes but what waits
  -- in them.
  record SentBelow (n : ℕ) (e e' : Engine T) : Type 0 where
    drains : Drains T e e'
    below : (c : ChanRef) → c < n → Runs T e c → e'.net.chans c ≡ []
    workers : e'.net.workers ≡ e.net.workers
    dev_reader : e'.dev_reader ≡ e.dev_reader
    dev_writer : e'.dev_writer ≡ e.dev_writer
    streams : e'.streams ≡ e.streams

  send_next :
      (n : ℕ) (e f : Engine T)
      → SentBelow n e f
      → Runs T e n
      → (g : Engine T) × SentBelow (suc n) e g
  send_next n e f s (w, at, runs, has_stream) =
      let there = ap (λ (h : ChanRef → Option Worker). h n) s.workers ∙ at in
      let (g, d, empty, only) =
        send_all T n (f.net.chans n) f refl
          (w, there, runs, subst (Elem n) (sym s.streams) has_stream) in
      (
        g,
        record {
          drains = Drains-trans T s.drains d;
          below = λ c lt live. elim (ℕ_discrete c n) [
            | yes same ↦ ap g.net.chans same ∙ empty
            | no ne ↦ only.chans c ne ∙ s.below c (omega (arith, lt, ne)) live
          ];
          workers = only.workers ∙ s.workers;
          dev_reader = only.dev_reader ∙ s.dev_reader;
          dev_writer = only.dev_writer ∙ s.dev_writer;
          streams = only.streams ∙ s.streams;
        },
      )

  skip_next : (n : ℕ) (e f : Engine T) → SentBelow n e f → NoRun T e n → SentBelow (suc n) e f
  skip_next n e f s idle = record {
    drains = s.drains;
    below = λ c lt live. elim (ℕ_discrete c n) [
      | yes same ↦ absurd (idle (subst (Runs T e) same live))
      | no ne ↦ s.below c (omega (arith, lt, ne)) live
    ];
    workers = s.workers;
    dev_reader = s.dev_reader;
    dev_writer = s.dev_writer;
    streams = s.streams;
  }

  send_below : (n : ℕ) (e : Engine T) → (g : Engine T) × SentBelow n e g
  send_below zero e = (
    e,
    record {
      drains = Drains-refl T e;
      below = λ c lt live. absurd (omega (arith, lt));
      workers = refl;
      dev_reader = refl;
      dev_writer = refl;
      streams = refl;
    },
  )
  send_below (suc n) e =
      let (f, s) = send_below n e in
      elim (Runs-cases T e n) [
        | inl live ↦ send_next n e f s live
        | inr idle ↦ (f, skip_next n e f s idle)
      ]

  -- Nothing comes in while the queues are emptied.
  followed_by-passed :
      {e f g : Engine T} (r : Reach T e f) (d : Reach T f g)
      → IsDraining T d
      → (all_passed T reader_in (followed_by T r d) ≡ all_passed T reader_in r)
        × (all_passed T writer_in (followed_by T r d) ≡ all_passed T writer_in r)
  unfolding followed_by IsDraining all_passed passed
  followed_by-passed r here t = (refl, refl)
  followed_by-passed r (next d (route p ps h same)) t =
      let (reader, writer) = followed_by-passed r d t in
      (append_nil _ ∙ reader, append_nil _ ∙ writer)
  followed_by-passed r (next d (write b h)) t =
      let (reader, writer) = followed_by-passed r d t in
      (append_nil _ ∙ reader, append_nil _ ∙ writer)
  followed_by-passed r (next d (send c b w h)) (t, _) =
      let (reader, writer) = followed_by-passed r d t in
      (append_nil _ ∙ reader, append_nil _ ∙ writer)
  followed_by-passed r (next d (read o x h)) t = absurd t
  followed_by-passed r (next d (receive m h)) t = absurd t
  followed_by-passed r (next d (dial c w at runs same)) t = absurd t
  followed_by-passed r (next d (serve id c takes same)) t = absurd t
  followed_by-passed r (next d (leave c w at runs same)) t = absurd t
  followed_by-passed r (next d (end c w at leaves same)) t = absurd t

  -- A goroutine that runs has a channel that was made.
  Runs-lt :
      {e f : Engine T} (s : IsStart T e) (r : Reach T e f) (c : ChanRef)
      → Runs T f c
      → c < f.net.fresh
  Runs-lt {e} {f} s r c (w, at, runs, _) = elim (dec_le f.net.fresh c) [
    | yes beyond ↦ cc (at, (Reach-IsValid T s r).net.tables.fresh_none c beyond)
    | no lt ↦ omega (arith, lt)
  ]

  -- All three kinds of queues, one after the other.
  drain_all :
      {e f : Engine T}
      → IsStart T e
      → Reach T e f
      → (g : Engine T) × Drains T f g
        × (g.dev_reader ≡ [])
        × (g.dev_writer ≡ [])
        × ((c : ChanRef) → Runs T g c → g.net.chans c ≡ [])
  drain_all {e} {f} s r =
      let (f1, d1, reader1, _) = route_all T f.dev_reader f refl in
      let (f2, d2, writer2, reader2, _) = write_all T f1.dev_writer f1 refl in
      let now = Drains-trans T d1 d2 in
      let (g, sent) = send_below f2.net.fresh f2 in
      (
        g,
        Drains-trans T now sent.drains,
        sent.dev_reader ∙ reader2 ∙ reader1,
        sent.dev_writer ∙ writer2,
        λ c (w, at, runs, has_stream).
            let live : Runs T f2 c = (
              w,
              ap (λ (h : ChanRef → Option Worker). h c) (sym sent.workers) ∙ at,
              runs,
              subst (Elem c) sent.streams has_stream,
            ) in
            sent.below c (Runs-lt s (followed_by T r now.0) c live) live,
      )

  -- What the loops have taken over gets through. In every state that the goroutines reach from a
  -- start without connections and with empty queues, a run goes on from there, of iterations of the
  -- router, of `RoutineTUNWriter`, and of the writing loops of those `addConn` that run and have
  -- opened their stream, and of nothing else, at the end of which `RoutineRouteTableWriter` has
  -- taken each packet that `RoutineTUNReader` had queued, each message that had been received is
  -- written to the device, and each packet that was put on the channel of an `addConn` with a
  -- stream has been taken from it to be written to the peer; each queue gives them in the order in
  -- which they came. Nothing is said of a channel whose `addConn` has not found its peer.
  pub queues_drain :
      {e f : Engine T}
      → IsStart T e
      → (r : Reach T e f)
      → (g : Engine T) × (d : Reach T f g) × IsDraining T d
        × (all_passed T reader_out (followed_by T r d) ≡ all_passed T reader_in r)
        × (all_passed T writer_out (followed_by T r d) ≡ all_passed T writer_in r)
        × ((c : ChanRef)
            → Runs T g c
            → all_left T (followed_by T r d) c ≡ all_entered T (followed_by T r d) c)
  unfolding packets_of
  queues_drain {e} {f} s r =
      let (g, (d, quiet), reader, writer, chans) = drain_all s r in
      let run = followed_by T r d in
      let (in_order, each, out_order) = queues_in_order T s run in
      let (no_read, no_receive) = followed_by-passed r d quiet in
      let done : (l : List Bytes) (q : List Payload) → q ≡ [] → l ++ packets_of q ≡ l =
        λ l q empty. ap (λ q. l ++ packets_of q) empty ∙ append_nil l in
      (
        g,
        d,
        quiet,
        sym (sym no_read ∙ in_order ∙ done _ g.dev_reader reader),
        sym (sym no_receive ∙ out_order ∙ done _ g.dev_writer writer),
        λ c live. sym (each c ∙ done _ (g.net.chans c) (chans c live)),
      )
