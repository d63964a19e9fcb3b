-- ===== src/Emulated/Network/Partition.antt =====
-- A line with a master at both ends: how the two frames share the slaves.
use mathlib.Core.Path.{fun_ext}
use kick_cat.Base.{
  ℕ, zero, suc, ◌+◌, ◌-◌, ◌<◌, ◌≡◌, refl, sym, ap, ◌∙◌, Bool, true, false, ltb, List, [], ◌∷◌, ◌++◌,
  none, some, arith, lt→ltb,
}
use kick_cat.Emulated.Network.{
  Network, Hop, Walk, open_port, chain, flip_wire, walk_frame, build_line, set_redundancy_injection,
  set_link_state, rebuild, walk_budget, start_walk,
}
use kick_cat.Emulated.Network.Line.{
  line, hops, back, forward_to_break, forward_to_master, backward_to_break, backward_to_master,
}
use kick_cat.Emulated.Network.Wires.{
  all_up, all_but, chain-line, flip-line, ringed, head_walk, rebuild-line,
}

abbrev pub nodes : List Hop → List ℕ
nodes [] = []
nodes (h ∷ hs) = h.node ∷ nodes hs

-- `n` numbers from `i` on.
abbrev pub count_from : ℕ → ℕ → List ℕ
count_from i zero = []
count_from i (suc n) = i ∷ count_from (i + 1) n

nodes-append : (xs ys : List Hop) → nodes (xs ++ ys) ≡ nodes xs ++ nodes ys
nodes-append [] ys = refl
nodes-append (x ∷ xs) ys = ap (λ l. x.node ∷ l) (nodes-append xs ys)

count_from-snoc : (i n : ℕ) → count_from i (suc n) ≡ count_from i n ++ ((i + n) ∷ [])
count_from-snoc i zero = let e : i + 0 ≡ i = omega arith in rw e refl
count_from-snoc i (suc n) =
    let e : i + suc n ≡ i + 1 + n = omega arith in
    rw e (ap (λ l. i ∷ l) (count_from-snoc (i + 1) n))

nodes-hops : (i k : ℕ) → nodes (hops i k) ≡ count_from i (suc k)
nodes-hops i zero = refl
nodes-hops i (suc k) = ap (λ l. i ∷ l) (nodes-hops (i + 1) k)

nodes-back : (s k : ℕ) → nodes (back s k) ≡ count_from s (suc k)
nodes-back s zero = refl
nodes-back s (suc k) =
    nodes-append (back s k) (record { node = s + suc k; is_port0_closed = false } ∷ [])
    ∙ ap (λ l. l ++ ((s + suc k) ∷ [])) (nodes-back s k)
    ∙ sym (count_from-snoc s (suc k))

-- The network of the constructor, with the master at its end as well.
abbrev pub line_of : Network → Network
line_of net = set_redundancy_injection (net.size - 1) 1 (build_line net)

abbrev bare : Network → Network
bare net = record net { is_custom = false; is_dirty = true }

line_of-ringed :
    (net : Network)
    → 0 < net.size
    → line_of net ≡ ringed (bare net) (line net.size all_up false false)
unfolding set_redundancy_injection build_line
line_of-ringed net h =
    let e : suc (net.size - 1) ≡ net.size = omega arith in
    let c : chain (net.size - 1) (λ n q. open_port) ≡ line net.size all_up false false =
      fun_ext λ i.
        fun_ext λ p. chain-line (net.size - 1) i p ∙ ap (λ m. line m all_up false false i p) e in
    rw c refl

-- On a line of slaves with the master at both ends and every wire up, the frame from the first end
-- passes the processing unit of each slave once, in the order of the line, the frame from the other
-- end passes none, and the ring is intact.
pub intact_ring :
    (net : Network)
    → 0 < net.size
    → let r = rebuild (line_of net) in
      (nodes r.order_nominal ≡ count_from 0 net.size)
      × (r.order_redundancy ≡ [])
      × (r.is_ring_intact ≡ true)
intact_ring net h =
    let n = net.size in
    let k = n - 1 in
    let r = rebuild-line (bare net) all_up h in
    let front =
      forward_to_master n all_up true k (walk_budget n) 0 (start_walk n none) (omega arith)
        (λ j b. refl) (omega arith) (omega arith) in
    let exit : (head_walk n all_up).exit ≡ some (k, 1) = ap (λ (x : Bool × Walk). x.1.exit) front in
    let tail =
      backward_to_master n all_up true true k (walk_budget n)
        (start_walk n (head_walk n all_up).exit) (omega arith) refl (λ j b. refl) (omega arith)
        (omega arith) in
    let size : suc k ≡ n = omega arith in
    rw (line_of-ringed net h) (
      ap nodes (r.0 ∙ ap (λ (x : Bool × Walk). x.1.order) front)
          ∙ nodes-hops 0 k
          ∙ ap (count_from 0) size,
      r.1 ∙ ap (λ (x : Bool × Walk). x.1.order) tail,
      r.2 ∙ rw exit (ground arith),
    )

set_link_state-inside :
    (a b : ℕ) (up : Bool) (net : Network)
    → ltb a net.size ≡ true
    → ltb b net.size ≡ true
    → set_link_state a b up net
      ≡ rebuild (record net { ports = flip_wire a b up (0 ∷ 1 ∷ 2 ∷ 3 ∷ []) net.ports })
unfolding set_link_state
set_link_state-inside a b up net p q = rw (p, q) refl

broken-ringed :
    (net : Network) (k : ℕ)
    → k + 1 < net.size
    → set_link_state k (k + 1) false (line_of net)
      ≡ rebuild (ringed (bare net) (line net.size (all_but k) false false))
broken-ringed net k h =
    let n = net.size in
    ap (set_link_state k (k + 1) false) (line_of-ringed net (omega arith))
    ∙ set_link_state-inside k (k + 1) false (ringed (bare net) (line n all_up false false))
        (lt→ltb k n (omega arith)) (lt→ltb (k + 1) n h)
    ∙ ap (λ p. rebuild (ringed (bare net) p)) (flip-line n k h)

-- When the wire behind slave `k` breaks, each slave is still passed once: the frame from the first
-- end passes the slaves up to `k` in order, the frame from the other end those behind it, from the
-- break outward; and the ring is not intact.
pub broken_ring :
    (net : Network) (k : ℕ)
    → k + 1 < net.size
    → let r = set_link_state k (k + 1) false (line_of net) in
      (nodes r.order_nominal ≡ count_from 0 (k + 1))
      × (nodes r.order_redundancy ≡ count_from (k + 1) (net.size - (k + 1)))
      × (r.is_ring_intact ≡ false)
broken_ring net k h =
    let n = net.size in
    let up = all_but k in
    let m = n - (k + 1) - 1 in
    let r = rebuild-line (bare net) up (omega arith) in
    let front =
      forward_to_break n up true true k (walk_budget n) 0 (start_walk n none) (omega arith)
        (λ j a b. ground arith) (ground arith) (omega arith) (omega arith) in
    let exit : (head_walk n up).exit ≡ none = ap (λ (x : Bool × Walk). x.1.exit) front in
    let at : k + 1 + m ≡ n - 1 = omega arith in
    let tail =
      backward_to_break n up true true m (walk_budget n) (k + 1)
        (start_walk n (head_walk n up).exit) (omega arith) (omega arith) (ground arith)
        (λ j a b. ground arith) (omega arith) (omega arith) in
    let one : suc k ≡ k + 1 = omega arith in
    let rest : suc m ≡ n - (k + 1) = omega arith in
    rw (broken-ringed net k h) (
      ap nodes (r.0 ∙ ap (λ (x : Bool × Walk). x.1.order) front)
          ∙ nodes-hops 0 k
          ∙ ap (count_from 0) one,
      ap nodes (
            r.1
            ∙ ap
                (λ j.
                  (walk_frame (walk_budget n) (line n up true true) j 1
                    (start_walk n (head_walk n up).exit)).1.order)
                (sym at)
            ∙ ap (λ (x : Bool × Walk). x.1.order) tail)
          ∙ nodes-back (k + 1) m
          ∙ ap (count_from (k + 1)) rest,
      r.2 ∙ rw exit refl,
    )
