-- ===== src/Emulated/Network/Route.antt =====
-- EmulatedNetwork::route of lib/slave/src/EmulatedNetwork.cc: a frame through the slaves. What a
-- slave does with a datagram is `process`; the latch of the receive times is `latch`.
use kick_cat.Base.{
  ℕ, zero, suc, ◌+◌, ◌/◌, ◌%◌, Bool, true, false, not, ◌&&◌, ◌||◌, ◌==◌, if◌then◌else◌, List, [],
  ◌∷◌, ◌++◌, none, some,
}
use kick_cat.Base.Lists.{drop, blit}
use kick_cat.Base.Bytes.{put16}
use kick_cat.EtherCat.{header_bytes}
use kick_cat.EtherCat.Command
use kick_cat.Frame.{Frame, Datagram, reset_context, peek_datagram, first, reserved_at}
use kick_cat.Emulated.Network.{Network, Hop, rebuild}

abbrev pub is_physical_write : ℕ → Bool
is_physical_write c =
    c == Command.bwr
    || c == Command.brw
    || c == Command.apwr
    || c == Command.aprw
    || c == Command.fpwr
    || c == Command.fprw

-- reg::DC_RECEIVED_TIME
abbrev pub dc_received_time : ℕ
dc_received_time = 0x900

abbrev pub circulate : Datagram → Datagram
circulate d = record d { header = record d.header { circulating = true } }

module _ {S : Type 0} (process : ℕ → Datagram → S → Datagram × S) (latch : List Hop → S → S) where
  -- One datagram through the passages: whether a slave has destroyed the frame.
  unfoldable pub through : List Hop → Datagram → S → Bool × Datagram × S
  through [] d s = (false, d, s)
  through (h ∷ hs) d s =
      let c = if h.is_port0_closed then circulate d else d in
      let (d', s') = process h.node c s in
      let rest = through hs d' s' in
      if h.is_port0_closed && d.header.circulating then (true, d, s) else rest

  -- The datagram is changed in the frame: its header, its payload and its working counter.
  abbrev pub write_back : ℕ → Datagram → List ℕ → List ℕ
  write_back pos d m =
      blit pos (header_bytes d.header (reserved_at (drop pos m)) ++ (d.bytes ++ put16 d.wkc)) m

  -- The loop over the datagrams: one turn for each, and no more than `fuel`.
  unfoldable pub route_all : ℕ → List Hop → Bool → Frame → S → Bool × Frame × S
  unfolding through
  route_all zero order destroyed f s = (destroyed, f, s)
  route_all (suc fuel) order destroyed f s =
      let (o, g) = peek_datagram f in
      elim o [
        | none ↦ (destroyed, g, s)
        | some d ↦
            let (gone, d', s') = through order d s in
            let now = destroyed || gone in
            let is_latch =
              is_physical_write d.header.command
              && d.header.address / 65536 % 65536 == dc_received_time in
            let k = record g { memory = write_back (first + f.next) d' g.memory } in
            route_all fuel order now k (if not now && is_latch then latch order s' else s')
      ]

  -- As many turns as datagrams fit in a frame.
  abbrev pub route_fuel : ℕ
  route_fuel = 128

  unfoldable pub route : Network → Bool → Frame → S → Bool × Network × Frame × S
  unfolding route_all rebuild
  route net is_redundancy f s =
      let n = if net.is_dirty then rebuild net else net in
      let order = if is_redundancy then n.order_redundancy else n.order_nominal in
      let (destroyed, g, s') = route_all route_fuel order false (reset_context f) s in
      (not destroyed, n, g, s')
