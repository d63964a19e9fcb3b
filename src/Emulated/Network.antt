-- ===== src/Emulated/Network.antt =====
-- kickcat::EmulatedNetwork of lib/slave/src/EmulatedNetwork.cc: the wiring of the slaves, and the
-- order in which a frame passes their processing units. Nodes are numbers below `size`.
pub mod Line
pub mod Route
pub mod Wires
pub mod Partition
mod Tests
use kick_cat.Base.{
  ℕ, zero, suc, ◌+◌, ◌-◌, ◌*◌, ◌%◌, Bool, true, false, not, ◌&&◌, ◌||◌, ◌==◌, ltb, if◌then◌else◌,
  List, [], ◌∷◌, ◌++◌, Option, none, some, ◌^◌,
}
use kick_cat.EtherCat.Command

pub record Port : Type 0 where
  pub peer : Option (ℕ × ℕ)
  pub to_master : Bool
  pub up : Bool

abbrev pub open_port : Port
open_port = record { peer = none; to_master = false; up = true }

abbrev pub wire : ℕ → ℕ → Port
wire node port = record { peer = some (node, port); to_master = false; up = true }

-- One passage of a processing unit.
pub record Hop : Type 0 where
  pub node : ℕ
  pub is_port0_closed : Bool

abbrev pub Ports : Type 0
Ports = ℕ → ℕ → Port

abbrev pub set_port : ℕ → ℕ → Port → Ports → Ports
set_port node p port ports n q = if n == node && q == p then port else ports n q

pub record Network : Type 0 where
  pub size : ℕ
  pub ports : Ports
  pub injection : Option (ℕ × ℕ)
  pub redundancy : Option (ℕ × ℕ)
  pub order_nominal : List Hop
  pub order_redundancy : List Hop
  pub is_custom : Bool
  pub is_ring_intact : Bool
  pub is_dirty : Bool

-- The wires of the daisy chain between the first `suc k` nodes.
unfoldable pub chain : ℕ → Ports → Ports
chain zero ports = ports
chain (suc k) ports = set_port (suc k) 0 (wire k 1) (set_port k 1 (wire (suc k) 0) (chain k ports))

unfoldable pub build_line : Network → Network
unfolding chain
build_line net = record net {
  ports = chain (net.size - 1) (λ n p. open_port);
  injection = some (0, 0);
  redundancy = none;
  is_custom = false;
  is_dirty = true;
}

unfoldable pub connect : ℕ → ℕ → ℕ → ℕ → Network → Network
connect a p b q net =
    let start = if net.is_custom then net.ports else (λ n r. open_port) in
    record net {
      ports = set_port b q (wire a p) (set_port a p (wire b q) start);
      is_custom = true;
      is_dirty = true;
    }

unfoldable pub set_injection : ℕ → ℕ → Network → Network
set_injection node port net = record net { injection = some (node, port); is_dirty = true }

unfoldable pub set_redundancy_injection : ℕ → ℕ → Network → Network
set_redundancy_injection node port net = record net {
  redundancy = some (node, port);
  is_dirty = true;
}

abbrev pub set_up : ℕ → ℕ → Bool → Ports → Ports
set_up node p is_up ports = set_port node p (record (ports node p) { up = is_up }) ports

-- The port of one node that leads to another, and the port that it leads to.
abbrev pub flip_port : ℕ → Bool → Option (ℕ × ℕ) → ℕ → ℕ → Ports → Ports
flip_port b is_up none a p ports = ports
flip_port b is_up (some (node, q)) a p ports =
    if node == b then set_up b q is_up (set_up a p is_up ports) else ports

unfoldable pub flip_wire : ℕ → ℕ → Bool → List ℕ → Ports → Ports
flip_wire a b is_up [] ports = ports
flip_wire a b is_up (p ∷ ps) ports =
    flip_wire a b is_up ps (flip_port b is_up (ports a p).peer a p ports)

-- The order in which a frame that came in by a port tries the others: 0, 3, 1, 2 from there on.
abbrev pub following : ℕ → List ℕ
following p =
    if p == 0
    then 3 ∷ 1 ∷ 2 ∷ []
    else if p == 3
    then 1 ∷ 2 ∷ 0 ∷ []
    else if p == 1
    then 2 ∷ 0 ∷ 3 ∷ []
    else 0 ∷ 3 ∷ 1 ∷ []

pub record Walk : Type 0 where
  pub order : List Hop
  pub exit : Option (ℕ × ℕ)
  pub budget : ℕ

abbrev pub pass : ℕ → Bool → Walk → Walk
pass node is_closed w = record w {
  order = w.order ++ (record { node = node; is_port0_closed = is_closed } ∷ []);
}

abbrev pub is_wired : Option (ℕ × ℕ) → Bool
is_wired none = false
is_wired (some _) = true

abbrev pub is_linked : Port → Bool
is_linked port = port.up && is_wired port.peer

-- The walk on the other side of a wire.
abbrev pub cross : (ℕ → ℕ → Walk → Bool × Walk) → Option (ℕ × ℕ) → Walk → Bool × Walk
cross go none w = (false, w)
cross go (some (m, q)) w = go m q w

-- The `for` of walkFrame, over the ports that follow the one of entry. `go` walks on from the
-- other end of a wire.
unfoldable pub walk_ports : (ℕ → ℕ → Walk → Bool × Walk) → Ports → ℕ → List ℕ → Walk → Bool × Walk
walk_ports go ports node [] w = (false, w)
walk_ports go ports node (p ∷ ps) w =
    let port = ports node p in
    let (left, w1) = cross go port.peer w in
    let behind = walk_ports go ports node ps (if p == 0 then pass node false w1 else w1) in
    let closed = walk_ports go ports node ps (if p == 0 then pass node true w else w) in
    if port.to_master
    then (true, record w { exit = some (node, p) })
    else if is_linked port
    then (if left then (true, w1) else behind)
    else closed

-- The budget goes down by one with every node that the walk enters, so that as much fuel as
-- budget is never used up before it.
unfoldable pub walk_frame : ℕ → Ports → ℕ → ℕ → Walk → Bool × Walk
unfolding walk_ports
walk_frame zero ports node entry w = (true, w)
walk_frame (suc fuel) ports node entry w =
    let w1 = record w { budget = w.budget - 1 } in
    let w2 = if entry == 0 then pass node false w1 else w1 in
    let rest = walk_ports (walk_frame fuel ports) ports node (following entry) w2 in
    if w.budget == 0 then (true, w) else rest

abbrev pub walk_budget : ℕ → ℕ
walk_budget n = 2 * 4 * (n + 1)

-- isValidInjection, for an injection point that may be missing.
abbrev pub valid_injection : ℕ → Option (ℕ × ℕ) → Bool
valid_injection n none = false
valid_injection n (some (node, port)) = ltb node n && ltb port 4

-- The flags `to_master` of all ports are cleared, then set at the injection points.
abbrev pub set_master : ℕ → Option (ℕ × ℕ) → Ports → Ports
set_master n none ports = ports
set_master n (some (node, p)) ports =
    if ltb node n && ltb p 4
    then set_port node p (record (ports node p) { to_master = true }) ports
    else ports

abbrev pub clear_masters : Ports → Ports
clear_masters ports n p = record (ports n p) { to_master = false }

abbrev pub start_walk : ℕ → Option (ℕ × ℕ) → Walk
start_walk n exit = record { order = []; exit = exit; budget = walk_budget n }

abbrev pub walk_from : ℕ → Option (ℕ × ℕ) → Ports → Option (ℕ × ℕ) → Walk
walk_from n none ports exit = start_walk n exit
walk_from n (some (node, p)) ports exit =
    if ltb node n && ltb p 4
    then (walk_frame (walk_budget n) ports node p (start_walk n exit)).1
    else start_walk n exit

abbrev pub same_exit : Option (ℕ × ℕ) → Option (ℕ × ℕ) → Bool
same_exit none r = false
same_exit (some (node, p)) none = false
same_exit (some (node, p)) (some (m, q)) = node == m && p == q

-- The orders of both frames; the receive times and the DL status are separate.
unfoldable pub rebuild : Network → Network
unfolding walk_frame
rebuild net =
    let ports =
      set_master net.size net.redundancy
        (set_master net.size net.injection (clear_masters net.ports)) in
    let head = walk_from net.size net.injection ports none in
    let tail = walk_from net.size net.redundancy ports head.exit in
    record net {
      ports = ports;
      order_nominal = head.order;
      order_redundancy = tail.order;
      is_ring_intact =
          valid_injection net.size net.redundancy && same_exit head.exit net.redundancy;
      is_dirty = false;
    }

unfoldable pub set_link_state : ℕ → ℕ → Bool → Network → Network
unfolding flip_wire rebuild
set_link_state a b is_up net =
    if ltb a net.size && ltb b net.size
    then rebuild (record net { ports = flip_wire a b is_up (0 ∷ 1 ∷ 2 ∷ 3 ∷ []) net.ports })
    else net

-- The register DL status of a node.
unfoldable pub dl_status : Ports → ℕ → List ℕ → ℕ
dl_status ports node [] = 0
dl_status ports node (p ∷ ps) =
    let port = ports node p in
    (if port.to_master || is_linked port then 2 ^ (4 + p) + 2 ^ (9 + 2 * p) else 2 ^ (8 + 2 * p))
    + dl_status ports node ps
