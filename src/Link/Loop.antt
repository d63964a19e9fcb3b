-- ===== src/Link/Loop.antt =====
-- A proof rule for the loops of processDatagrams.
use kick_cat.Base.{ℕ, zero, suc, ◌≡◌, refl, ◌∙◌, false, ◌||◌, Bool-cases, inl, inr}
use kick_cat.Frame.{Frame, Datagram}
use kick_cat.Link.{Link, Sockets, is_ok, is_stale, set_status}
use kick_cat.Link.Process
use kick_cat.Link.Process.{
  Round, is_datagram_available, deliver, dispatch_one, dispatch, dispatch_fuel, round, rounds, read,
}

is_stale-frames :
    {S : Type 0} (l : Link S) (a b : Frame) (i : ℕ)
    → is_stale (record l { nominal = a; redundancy = b }) i ≡ is_stale l i
unfolding is_stale
is_stale-frames l a b i = refl

-- A property of the link and of its client that the loops keep: it holds whatever the frames are,
-- and when a datagram of the window that has not been answered is given to its callback.
pub record Rule {S : Type 0} (P : Link S → S → Type 0) : Type 0 where
  pub frames :
      (l : Link S) (s : S) (a b : Frame) → P l s → P (record l { nominal = a; redundancy = b }) s
  pub delivered :
      (l : Link S) (s : S) (d : Datagram)
      → is_stale l d.header.index ≡ false
      → is_ok (l.callbacks d.header.index).status ≡ false
      → P l s
      → let (status, s') = (l.callbacks d.header.index).process d s in
        P (record l { callbacks = set_status d.header.index status l.callbacks }) s'

module _ {S : Type 0} {P : Link S → S → Type 0} (rule : Rule P) where
  deliver_keeps :
      (d : Datagram) (r : Round S)
      → is_stale r.link d.header.index ≡ false
      → P r.link r.client
      → P (deliver d r).link (deliver d r).client
  unfolding deliver
  deliver_keeps d r fresh p = elim (Bool-cases (is_ok (r.link.callbacks d.header.index).status)) [
    | inl answered ↦ rw answered p
    | inr open_ ↦ rw open_ (rule.delivered r.link r.client d fresh open_ p)
  ]

  dispatch_one_keeps :
      (r : Round S) → P r.link r.client → P (dispatch_one r).link (dispatch_one r).client
  unfolding dispatch_one
  dispatch_one_keeps r p =
      let t = Process.next_datagram r.link in
      let l = record r.link { nominal = t.nominal; redundancy = t.redundancy } in
      let q = rule.frames r.link r.client t.nominal t.redundancy p in
      elim (Bool-cases (is_stale r.link t.datagram.header.index)) [
        | inl stale ↦ rw stale q
        | inr fresh ↦ rw fresh (
            deliver_keeps t.datagram
              (record r { link = l; is_dropped = r.is_dropped || t.is_dropped })
              (is_stale-frames r.link t.nominal t.redundancy t.datagram.header.index ∙ fresh) q)
      ]

  dispatch_keeps :
      (fuel : ℕ) (r : Round S)
      → P r.link r.client
      → P (dispatch fuel r).link (dispatch fuel r).client
  unfolding dispatch
  dispatch_keeps zero r p = p
  dispatch_keeps (suc fuel) r p = elim (Bool-cases (is_datagram_available r.link)) [
    | inl on ↦ rw on (dispatch_keeps fuel (dispatch_one r) (dispatch_one_keeps r p))
    | inr off ↦ rw off p
  ]

  module _ {W : Type 0} (net : Sockets W) where
    round_keeps :
        (r : Round S) (w : W)
        → P r.link r.client
        → P (round net r w).0.link (round net r w).0.client
    unfolding round read
    round_keeps r w p = dispatch_keeps dispatch_fuel _ (rule.frames r.link r.client _ _ p)

    pub rounds_keeps :
        (n budget : ℕ) (r : Round S) (w : W)
        → P r.link r.client
        → P (rounds net n budget r w).0.link (rounds net n budget r w).0.client
    unfolding rounds
    rounds_keeps zero budget r w p = p
    rounds_keeps (suc n) zero r w p =
        let r' = round net r w in rounds_keeps n zero r'.0 r'.1 (round_keeps r w p)
    rounds_keeps (suc n) (suc budget) r w p =
        let r' = round net r w in
        elim (Bool-cases (r'.0.is_stale_frame || r'.0.is_dropped)) [
          | inl again ↦
              rw (again, rounds) (rounds_keeps (suc n) budget r'.0 r'.1 (round_keeps r w p))
          | inr done ↦ rw (done, rounds) (rounds_keeps n (suc budget) r'.0 r'.1 (round_keeps r w p))
        ]
