-- ===== src/Link/Process.antt =====
-- Link::read, processDatagrams and checkEcatEvents of lib/master/src/Link.cc.
use kick_cat.Base.{
  ℕ, zero, suc, ◌+◌, ◌%◌, Bool, true, false, not, ◌||◌, ◌&&◌, ◌==◌, if◌then◌else◌, List, [], ◌∷◌,
  bit_or, ◌/◌,
}
use kick_cat.Frame.{Datagram, reset_context}
use kick_cat.Frame.Socket.{read_frame}
use kick_cat.Link.Merge.{Taken, next_of}
use kick_cat.Link.{
  Callbacks, Irq, Link, Sockets, is_ok, is_stale, sub8, in_flight, set_status, finalize_datagrams,
}

-- What the inner loop of processDatagrams changes.
pub record Round (S : Type 0) : Type 0 where
  pub link : Link S
  pub client : S
  pub irq : ℕ
  pub is_stale_frame : Bool
  pub is_dropped : Bool

-- What a call of processDatagrams leaves.
pub record Processed (S W : Type 0) : Type 0 where
  pub link : Link S
  pub client : S
  pub world : W
  pub threw : Bool

module _ {S : Type 0} where
  abbrev pub is_datagram_available : Link S → Bool
  is_datagram_available l = l.nominal.is_available || l.redundancy.is_available

  unfoldable pub next_datagram : Link S → Taken
  next_datagram l =
      next_of l.logical_mapping (λ i. sub8 i l.index_queue) (is_stale l) l.nominal l.redundancy

  -- A datagram for the callback of its index; one that has been answered is not asked again.
  unfoldable pub deliver : Datagram → Round S → Round S
  deliver d r =
      let i = d.header.index in
      let c = r.link.callbacks i in
      let (status, client) = c.process d r.client in
      if is_ok c.status then record r { irq = bit_or r.irq d.header.irq } else record r {
        irq = bit_or r.irq d.header.irq;
        client = client;
        link = record r.link { callbacks = set_status i status r.link.callbacks };
      }

  -- One turn of the `while`.
  unfoldable pub dispatch_one : Round S → Round S
  unfolding deliver
  dispatch_one r =
      let t = next_datagram r.link in
      let s = record r {
        link = record r.link { nominal = t.nominal; redundancy = t.redundancy };
        is_dropped = r.is_dropped || t.is_dropped;
      } in
      if is_stale r.link t.datagram.header.index
      then record s { is_stale_frame = true }
      else deliver t.datagram s

  unfoldable pub dispatch : ℕ → Round S → Round S
  dispatch zero r = r
  dispatch (suc fuel) r =
      let rest = dispatch fuel (dispatch_one r) in if is_datagram_available r.link then rest else r

  -- The datagrams from `i` on that were not answered: their `error`, and whether one has thrown.
  unfoldable pub report : ℕ → ℕ → (ℕ → Callbacks S) → Bool → S → Bool × S
  report zero i cs threw s = (threw, s)
  report (suc n) i cs threw s =
      let (now, s') = (cs i).error (cs i).status s in
      if is_ok (cs i).status
      then report n ((i + 1) % 256) cs threw s
      else report n ((i + 1) % 256) cs (threw || now) s'

  -- checkEcatEvents: a callback is called on the rising edge of its bit.
  unfoldable pub check_events : ℕ → List (Irq S) → S → List (Irq S) × S
  check_events irq [] s = ([], s)
  check_events irq (e ∷ es) s =
      let is_set = irq % 2 == 1 in
      let s1 = if is_set && e.is_armed then e.callback s else s in
      let (es', s2) = check_events (irq / 2) es s1 in (record e { is_armed = not is_set } ∷ es', s2)

module _ {S W : Type 0} where
  -- The callbacks of what was not answered, then the events, unless an exception is thrown again.
  unfoldable pub conclude : Round S → W → Processed S W
  conclude r w =
      let l = r.link in
      let (threw, s) = report (in_flight l) l.index_queue l.callbacks false r.client in
      let l1 = record l {
        index_queue = l.index_head;
        nominal = reset_context l.nominal;
        redundancy = reset_context l.redundancy;
      } in
      let (es, s1) = check_events r.irq l.irqs s in
      if threw
      then record { link = l1; client = s; world = w; threw = true }
      else record { link = record l1 { irqs = es }; client = s1; world = w; threw = false }

-- The loop over the sent frames ends by the frames left and by the budget for stale ones. The
-- fuel of the inner loop is one turn for every datagram that fits in two frames; a chain of datagrams
-- that leaves the buffer, which the code follows, ends there.
abbrev pub dispatch_fuel : ℕ
dispatch_fuel = 256

module _ {S W : Type 0} (net : Sockets W) where
  unfoldable pub read : Link S → W → Link S × W
  read l w =
      let (a, w1) = net.read_redundancy w in
      let nominal = (read_frame a l.nominal).1 in
      let (b, w2) = net.read_nominal w1 in
      (record l { nominal = nominal; redundancy = (read_frame b l.redundancy).1 }, w2)

  -- The body of the `for`: one read, and all that it has brought.
  unfoldable pub round : Round S → W → Round S × W
  unfolding read
  round r w =
      let (l, w1) = read r.link w in
      (
        dispatch dispatch_fuel (record r { link = l; is_stale_frame = false; is_dropped = false }),
        w1,
      )

  -- A stale or desynchronized frame is replaced by one more read, as long as the budget lasts.
  unfoldable pub rounds : ℕ → ℕ → Round S → W → Round S × W
  rounds zero budget r w = (r, w)
  rounds (suc n) zero r w = let (r', w') = round r w in rounds n zero r' w'
  rounds (suc n) (suc budget) r w =
      let (r', w') = round r w in
      elim (r'.is_stale_frame || r'.is_dropped) [
        | true ↦ rounds (suc n) budget r' w'
        | false ↦ rounds n (suc budget) r' w'
      ]

  unfoldable pub process_datagrams : Link S → W → S → Processed S W
  unfolding conclude
  process_datagrams l w s =
      let (l1, w1) = finalize_datagrams net l w in
      let waiting = l1.sent_frame in
      let start : Round S = record {
        link = record l1 { sent_frame = 0 };
        client = s;
        irq = 0;
        is_stale_frame = false;
        is_dropped = false;
      } in
      let (r, w2) = rounds waiting waiting start w1 in conclude r w2
