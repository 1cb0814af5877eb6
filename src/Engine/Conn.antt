-- ===== src/Engine/Conn.antt =====
-- core/engine/conn.go: a channel and a goroutine for the peer behind an address.
pub mod Tables
pub mod Exit
pub mod Queues
pub mod Lookup
pub mod Channels
use net_hive.Prelude.{◌+◌, not, Option, none, some, List, [], ◌∷◌, if◌then◌else◌, Result, ok, err}
use net_hive.Netip.{Addr, addr_eq, Prefix}
use net_hive.Engine.{PeerId, ChanRef, Maps, running, leaving, ended, Worker, update, Net}

pub data Error : Type 0 where
  no_route : Addr → Error
  unknown_dst : PeerId → Error

module _ (T : Maps) where
  open T use {m as M, id as I, addr as A}

  -- The empty channel and the goroutine that `addConnByDst` and `addConnByID` make.
  unfoldable pub open_conn : PeerId → Option Addr → Net T → Net T
  open_conn key dst n = record n {
    chans = update n.chans n.fresh [];
    workers = update n.workers n.fresh (some (record { key = key; dst = dst; phase = running }));
    fresh = n.fresh + 1;
  }

  -- The body of the `Range` call at the peer that owns the address.
  unfoldable pub conn_for : Addr → PeerId → Net T → ChanRef × Net T
  unfolding open_conn
  conn_for dst key n = elim (I.load n.table.id key) [
    | some c ↦ (c, n)
    | none ↦
        let t = record n.table {
          addr = A.store n.table.addr dst n.fresh;
          id = I.store n.table.id key n.fresh;
        } in
        (n.fresh, record (open_conn key (some dst) n) { table = t })
  ]

  -- `Range` over the routes: it goes on while the addresses differ, and stops at the first match.
  unfoldable pub range_routes : Addr → List (PeerId × Prefix) → Net T → Option ChanRef × Net T
  range_routes dst [] n = (none, n)
  range_routes dst ((key, value) ∷ routes) n =
      if not (addr_eq value.addr dst)
      then range_routes dst routes n
      else (some (conn_for dst key n).0, (conn_for dst key n).1)

  unfoldable pub found_or_error : Addr → Option ChanRef × Net T → Result Error ChanRef × Net T
  found_or_error dst (some c, n) = (ok c, n)
  found_or_error dst (none, n) = (err (no_route dst), n)

  unfoldable pub add_conn_by_dst : Addr → Net T → Result Error ChanRef × Net T
  unfolding found_or_error
  add_conn_by_dst dst n = elim (A.load n.table.addr dst) [
    | some c ↦ (ok c, n)
    | none ↦ found_or_error dst (range_routes dst (M.range n.table.m) n)
  ]

  -- It starts the goroutine and then reports an error in any case.
  unfoldable pub add_conn_by_id : PeerId → Net T → Result Error ChanRef × Net T
  unfolding open_conn
  add_conn_by_id id n = elim (I.load n.table.id id) [
    | some c ↦ (ok c, n)
    | none ↦
        let t = record n.table { id = I.store n.table.id id n.fresh } in
        (err (unknown_dst id), record (open_conn id none n) { table = t })
  ]

  -- A goroutine that `addConnByID` started has no address to delete.
  unfoldable pub delete_addr : Option Addr → A.Map → A.Map
  delete_addr none addrs = addrs
  delete_addr (some dst) addrs = A.delete addrs dst

  -- The deferred calls of a goroutine run in the reverse order: `addr.Delete(dst)` first.
  unfoldable pub exit_addr : ChanRef → Worker → Net T → Net T
  exit_addr c w n = record n {
    table = record n.table { addr = delete_addr w.dst n.table.addr };
    workers = update n.workers c (some (record w { phase = leaving }));
  }

  -- Then `id.Delete(key)`.
  unfoldable pub exit_id : ChanRef → Worker → Net T → Net T
  exit_id c w n = record n {
    table = record n.table { id = I.delete n.table.id w.key };
    workers = update n.workers c (some (record w { phase = ended }));
  }
