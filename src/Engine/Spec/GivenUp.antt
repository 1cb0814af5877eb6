-- ===== src/Engine/Spec/GivenUp.antt =====
-- Which queues are given up, and for whom.
use net_hive.Prelude.{
  ◌≡◌, refl, sym, ap, ◌∙◌, ◌≢◌, inl, inr, false, not, ◌&&◌, Option, none, some, List, [], ◌==◌,
  ==_iff, if◌then◌else◌, Bytes, Bytes-discrete, bytes_eq, bytes_eq_refl, bytes_eq_sound, Bool-cases,
}
use net_hive.Engine.{Payload, PeerId, ChanRef, Maps, Worker, Net}
use net_hive.Engine.Conn.Tables.{IsTables}
use net_hive.Engine.Spec.{abandoned, is_at}

module _ (T : Maps) where
  open T use {m as M, id as I, addr as A}

  pub abandoned-empty :
      (o : Option Worker) (i : Option ChanRef) (k : PeerId) (c : ChanRef)
      → abandoned T o i k c [] ≡ []
  unfolding abandoned
  abandoned-empty none i k c = refl
  abandoned-empty (some w) i k c = elim (Bool-cases (bytes_eq w.key k && not (is_at T i c))) [
    | inl yes_gone ↦ rw yes_gone refl
    | inr no_gone ↦ rw no_gone refl
  ]

  -- A channel of another peer.
  pub abandoned-other :
      (w : Worker) (i : Option ChanRef) (k : PeerId) (c : ChanRef) (q : List Payload)
      → w.key ≢ k
      → abandoned T (some w) i k c q ≡ []
  unfolding abandoned
  abandoned-other w i k c q ne = elim (Bool-cases (bytes_eq w.key k)) [
    | inl same ↦ absurd (ne (bytes_eq_sound w.key k same))
    | inr other ↦ rw other refl
  ]

  -- The channel that the peer's entry is.
  pub abandoned-held :
      (o : Option Worker) (k : PeerId) (c : ChanRef) (q : List Payload)
      → abandoned T o (some c) k c q ≡ []
  unfolding abandoned is_at
  abandoned-held none k c q = refl
  abandoned-held (some w) k c q = elim (Bool-cases (bytes_eq w.key k)) [
    | inl same ↦ rw (same, (==_iff c c).1 refl) refl
    | inr other ↦ rw other refl
  ]

  pub is_at-ne : (o : Option ChanRef) (c : ChanRef) → o ≢ some c → is_at T o c ≡ false
  unfolding is_at
  is_at-ne none c ne = refl
  is_at-ne (some d) c ne = elim (Bool-cases (d == c)) [
    | inl same ↦ absurd (ne (ap some ((==_iff d c).0 same)))
    | inr other ↦ other
  ]

  -- A channel of the peer that its entry is not.
  pub abandoned-gone :
      (w : Worker) (i : Option ChanRef) (c : ChanRef) (q : List Payload)
      → i ≢ some c
      → abandoned T (some w) i w.key c q ≡ q
  unfolding abandoned
  abandoned-gone w i c q ne = rw (bytes_eq_refl w.key, is_at-ne i c ne) refl

  -- Of the goroutine, only its peer counts.
  pub abandoned-key :
      (w x : Worker) (i : Option ChanRef) (k : PeerId) (c : ChanRef) (q : List Payload)
      → w.key ≡ x.key
      → abandoned T (some w) i k c q ≡ abandoned T (some x) i k c q
  unfolding abandoned
  abandoned-key w x i k c q same =
      ap (λ (b : Bytes). if bytes_eq b k && not (is_at T i c) then q else []) same

  -- Of the entry, only whether it is this channel counts.
  pub abandoned-entry :
      (o : Option Worker) (i j : Option ChanRef) (k : PeerId) (c : ChanRef) (q : List Payload)
      → i ≢ some c
      → j ≢ some c
      → abandoned T o i k c q ≡ abandoned T o j k c q
  unfolding abandoned
  abandoned-entry none i j k c q ni nj = refl
  abandoned-entry (some w) i j k c q ni nj = rw (is_at-ne i c ni, is_at-ne j c nj) refl

  -- Nothing of a channel that is the entry of its peer is given up for anyone.
  pub held_by :
      {n : Net T} (k j : PeerId) (c : ChanRef) (q : List Payload)
      → IsTables T n
      → I.load n.table.id k ≡ some c
      → abandoned T (n.workers c) (I.load n.table.id j) j c q ≡ []
  held_by {n} k j c q v at =
      let (w, there, key, _) = v.id_live k c at in
      elim (Bytes-discrete j k) [
        | yes same ↦
            let entry : I.load n.table.id j ≡ some c = ap (I.load n.table.id) same ∙ at in
            rw entry (abandoned-held (n.workers c) j c q)
        | no ne ↦ rw there (abandoned-other w (I.load n.table.id j) j c q (λ e. ne (sym e ∙ key)))
      ]
