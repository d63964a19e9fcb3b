-- ===== src/Emulated/Network/Tests.antt =====
-- Four slaves in a line, and the witnesses of the theorems.
use kick_cat.Base.{◌≡◌, true, false, none, [], arith}
use kick_cat.Emulated.Network.{Network, open_port, rebuild, set_link_state}
use kick_cat.Emulated.Network.Partition.{nodes, count_from, line_of, intact_ring, broken_ring}

abbrev four : Network
four = record {
  size = 4;
  ports = λ i p. open_port;
  injection = none;
  redundancy = none;
  order_nominal = [];
  order_redundancy = [];
  is_custom = false;
  is_ring_intact = false;
  is_dirty = true;
}

intact_ring_example :
    let r = rebuild (line_of four) in
    (nodes r.order_nominal ≡ count_from 0 4) × (r.order_redundancy ≡ []) × (r.is_ring_intact ≡ true)
intact_ring_example = intact_ring four (omega arith)

broken_ring_example :
    let r = set_link_state 1 2 false (line_of four) in
    (nodes r.order_nominal ≡ count_from 0 2)
    × (nodes r.order_redundancy ≡ count_from 2 2)
    × (r.is_ring_intact ≡ false)
broken_ring_example = broken_ring four 1 (omega arith)
