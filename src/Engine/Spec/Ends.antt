-- ===== src/Engine/Spec/Ends.antt =====
-- What the end of a goroutine, and a writing loop, do to the queues of the peers.
use net_hive.Prelude.{
  ◌≡◌, refl, sym, ap, subst, ◌∙◌, ◌≢◌, ◌⊎◌, inl, inr, Bool, Option, none, some, List, ◌∷◌, Bytes,
  Bytes-discrete, Option-cases, All,
}
use net_hive.Engine.{
  ℕ_discrete, Payload, PeerId, ChanRef, Maps, update, update_self, update_ne, leaving, ended,
  Worker, Net,
}
use net_hive.Engine.Conn.Queues.{Serves}
use net_hive.Engine.Conn.{exit_addr, exit_id}
use net_hive.Engine.Conn.Lookup.{IsNet}
use net_hive.Engine.Spec.{
  VpnStep, Event, wrote, silent, emit, late, lose, behind, view, view-ext, abandoned, gone_at,
}
use net_hive.Engine.Spec.Route.{behind_other, held_change}
use net_hive.Engine.Spec.Connect.{some-injective}
use net_hive.Engine.Conn.Tables.{Routes, IsTables}
use net_hive.Engine.Spec.GivenUp.{
  abandoned-other, abandoned-gone, abandoned-entry, abandoned-key, held_by,
}

module _ (T : Maps) where
  open T use {m as M, id as I, addr as A}

  -- The channel of no peer: a change there is not seen.
  behind_unseen :
      (n : Net T) (c : ChanRef) (q : List Payload)
      → ((k : PeerId) → I.load n.table.id k ≢ some c)
      → (k : PeerId)
      → behind T (update n.chans c q) (I.load n.table.id k) ≡ behind T n.chans (I.load n.table.id k)
  unfolding behind
  behind_unseen n c q nobody k = elim (Option-cases (I.load n.table.id k)) [
    | inl free ↦ rw free refl
    | inr (d, at) ↦ rw at (update_ne n.chans c d q (λ e. nobody k (at ∙ ap some e)))
  ]

  is_held : (o : Option ChanRef) (c : ChanRef) → (o ≡ some c) ⊎ (o ≢ some c)
  is_held none c = inr (λ e. cc (e))
  is_held (some d) c = elim (ℕ_discrete d c) [
    | yes e ↦ inl (ap some e)
    | no ne ↦ inr (λ e. ne (cc (e)))
  ]

  -- The peer to which a channel's packet is written.
  unfoldable pub to_peer : Option Worker → Bytes → Event
  to_peer none b = silent
  to_peer (some w) b = wrote w.key b

  -- The first packet of a channel is taken.
  module _ (g : Bool) {n : Net T} (c : ChanRef) (p : Payload) (ps : List Payload) (v : IsNet T n)
      (queue : n.chans c ≡ p ∷ ps) (w : Worker) (there : n.workers c ≡ some w)
      (to : Routes T n.table.m w.key p.dst) where
    abbrev after_take : Net T
    after_take = record n { chans = update n.chans c ps }

    take-emit :
        I.load n.table.id w.key ≡ some c
        → VpnStep T g (view T n) (view T after_take) (wrote w.key p.bytes)
    unfolding behind
    take-emit at =
        emit w.key p to refl
          (rw (at, behind) (queue ∙ ap (λ l. p ∷ l) (sym (update_self n.chans c ps))))
          (λ j ne. behind_other T w.key j c ps v.tables at ne)
          (held_change T w.key c ps v.tables at)

    take-gone :
        (j : PeerId) (d : ChanRef)
        → (j ≢ w.key) ⊎ (d ≢ c)
        → gone_at T after_take j d ≡ gone_at T n j d
    take-gone j d other = elim (ℕ_discrete d c) [
      | no ne ↦
          ap (abandoned T (n.workers d) (I.load n.table.id j) j d) (update_ne n.chans c d ps ne)
      | yes same ↦ elim other [
        | inr ne ↦ absurd (ne same)
        | inl ne ↦
            let here_now : n.workers d ≡ some w = ap n.workers same ∙ there in
            let i = I.load n.table.id j in
            rw here_now (
              abandoned-other T w i j d (update n.chans c ps d) (λ e. ne (sym e))
              ∙ sym (abandoned-other T w i j d (n.chans d) (λ e. ne (sym e))))
      ]
    ]

    take-late :
        I.load n.table.id w.key ≢ some c
        → VpnStep T g (view T n) (view T after_take) (wrote w.key p.bytes)
    take-late gone =
        let i = I.load n.table.id w.key in
        let nobody : (k : PeerId) → I.load n.table.id k ≢ some c = λ k held.
          let (x, at, key, _) = v.tables.id_live k c held in
          let same : w ≡ x = cc (there, at) in
          gone (ap (I.load n.table.id) (ap (λ (w : Worker). w.key) same ∙ key) ∙ held) in
        late w.key c p to refl (behind_unseen n c ps nobody)
          (rw there (
            abandoned-gone T w i c (n.chans c) gone
            ∙ queue
            ∙ ap (λ l. p ∷ l) (sym (update_self n.chans c ps))
            ∙ ap (λ l. p ∷ l) (sym (abandoned-gone T w i c (update n.chans c ps c) gone))))
          take-gone

  pub take-VpnStep :
      (g : Bool) {n : Net T} (c : ChanRef) (p : Payload) (ps : List Payload)
      → IsNet T n
      → n.chans c ≡ p ∷ ps
      → VpnStep T g
          (view T n)
          (view T (record n { chans = update n.chans c ps }))
          (to_peer (n.workers c) p.bytes)
  unfolding to_peer
  take-VpnStep g {n} c p ps v queue =
      let (serves, _) = subst (All (λ p. Serves T n c p.dst)) queue (v.queues.meant c) in
      let w = serves.worker in
      subst
        (λ (o : Option Worker).
          VpnStep T g (view T n) (view T (record n { chans = update n.chans c ps }))
            (to_peer o p.bytes))
        (sym serves.at)
        (elim (is_held (I.load n.table.id w.key) c) [
          | inl at ↦ take-emit g c p ps v queue w serves.at serves.to at
          | inr gone ↦ take-late g c p ps v queue w serves.at serves.to gone
        ])

  -- The goroutine of a channel changes its phase.
  phase_gone :
      (n n' : Net T) (c : ChanRef) (w x : Worker)
      → n.workers c ≡ some w
      → x.key ≡ w.key
      → n'.workers ≡ update n.workers c (some x)
      → n'.chans ≡ n.chans
      → (j : PeerId) (d : ChanRef)
      → abandoned T (n'.workers d) (I.load n.table.id j) j d (n'.chans d) ≡ gone_at T n j d
  phase_gone n n' c w x at key workers chans j d = elim (ℕ_discrete d c) [
    | no ne ↦
        let worker : n'.workers d ≡ n.workers d =
          ap (λ (f : ChanRef → Option Worker). f d) workers ∙ update_ne n.workers c d (some x) ne in
        rw (worker, ap (λ (f : ChanRef → List Payload). f d) chans) refl
    | yes same ↦
        let now : n'.workers d ≡ some x =
          ap (λ (f : ChanRef → Option Worker). f d) workers
          ∙ ap (update n.workers c (some x)) same
          ∙ update_self n.workers c (some x) in
        let before : n.workers d ≡ some w = ap n.workers same ∙ at in
        rw (now, before, ap (λ (f : ChanRef → List Payload). f d) chans)
          (abandoned-key T x w (I.load n.table.id j) j d (n.chans d) key)
  ]

  pub leave-view :
      (n : Net T) (c : ChanRef) (w : Worker)
      → n.workers c ≡ some w
      → view T (exit_addr T c w n) ≡ view T n
  unfolding exit_addr
  leave-view n c w at =
      view-ext T n (exit_addr T c w n) refl (λ k. refl)
        (phase_gone n (exit_addr T c w n) c w (record w { phase = leaving }) at refl refl refl)

  -- A goroutine that ends gives up the queue of its peer.
  module _ (g : Bool) (n : Net T) (c : ChanRef) (w : Worker) (v : IsTables T n)
      (there : n.workers c ≡ some w) (at : I.load n.table.id w.key ≡ some c) where
    abbrev after_end : Net T
    after_end = exit_id T c w n

    end_worker : after_end.workers c ≡ some (record w { phase = ended })
    unfolding exit_id
    end_worker = update_self n.workers c (some (record w { phase = ended }))

    end_lost : gone_at T after_end w.key c ≡ n.chans c
    unfolding exit_id
    end_lost =
        let deleted = I.load-delete_self n.table.id w.key in
        rw (end_worker, deleted)
          (abandoned-gone T (record w { phase = ended }) none c (n.chans c) (λ e. cc (e)))

    end_entry :
        (o : Option Worker) (j : PeerId) (d : ChanRef) (q : List Payload)
        → (j ≢ w.key) ⊎ (d ≢ c)
        → abandoned T o (I.load after_end.table.id j) j d q
          ≡ abandoned T o (I.load n.table.id j) j d q
    unfolding exit_id
    end_entry o j d q other = elim (Bytes-discrete j w.key) [
      | no ne ↦ rw (I.load-delete_ne n.table.id w.key j (λ e. ne (sym e))) refl
      | yes same ↦ elim other [
        | inl ne ↦ absurd (ne same)
        | inr ne ↦
            abandoned-entry T o _ (I.load n.table.id j) j d q
              (λ h. cc (h, same, I.load-delete_self n.table.id w.key))
              (λ h. ne (some-injective (sym h ∙ ap (I.load n.table.id) same ∙ at)))
      ]
    ]

    end_others :
        (j : PeerId) (d : ChanRef)
        → (j ≢ w.key) ⊎ (d ≢ c)
        → gone_at T after_end j d ≡ gone_at T n j d
    unfolding exit_id
    end_others j d other =
        end_entry (after_end.workers d) j d (after_end.chans d) other
        ∙ phase_gone n after_end c w (record w { phase = ended }) there refl refl refl j d

    pub exit_id-VpnStep : VpnStep T g (view T n) (view T after_end) silent
    unfolding exit_id behind
    exit_id-VpnStep =
        lose w.key c refl (ap (behind T n.chans) (I.load-delete_self n.table.id w.key))
          (λ j ne. ap (behind T n.chans) (I.load-delete_ne n.table.id w.key j (λ e. ne (sym e))))
          (held_by T w.key w.key c (n.chans c) v at) (end_lost ∙ sym (ap (behind T n.chans) at))
          end_others
