-- ===== src/Emulated/Network/Wires.antt =====
-- The ports of a line after the constructor, after a wire is broken, and with the master set.
use mathlib.Core.Path.{fun_ext}
use kick_cat.Base.{
  ℕ, zero, suc, ◌+◌, ◌-◌, ◌<◌, ◌≡◌, refl, ap, ◌∙◌, Bool, true, false, not, ◌==◌, List, [], ◌∷◌,
  none, some, arith, lt→ltb,
}
use kick_cat.Emulated.Network.{
  Network, Ports, Walk, open_port, chain, flip_wire, walk_frame, rebuild, walk_budget, start_walk,
  set_master, clear_masters, set_up, flip_port, same_exit,
}
use kick_cat.Emulated.Network.Line.{line}

abbrev pub all_up : ℕ → Bool
all_up i = true

-- The wires that the constructor lays.
pub chain-line :
    (k : ℕ) (i p : ℕ) → chain k (λ n q. open_port) i p ≡ line (suc k) all_up false false i p
unfolding chain
chain-line zero i p = ground arith
chain-line (suc k) i p = ground (arith, chain-line k i p)

-- Every wire is up but the one behind node `k`.
abbrev pub all_but : ℕ → ℕ → Bool
all_but k i = not (i == k)

flip_wire-cons :
    (a b p : ℕ) (up : Bool) (ps : List ℕ) (ports : Ports)
    → flip_wire a b up (p ∷ ps) ports
      ≡ flip_wire a b up ps (flip_port b up (ports a p).peer a p ports)
unfolding flip_wire
flip_wire-cons a b p up ps ports = refl

flip_wire-nil : (a b : ℕ) (up : Bool) (ports : Ports) → flip_wire a b up [] ports ≡ ports
unfolding flip_wire
flip_wire-nil a b up ports = refl

module _ (n k : ℕ) (h : k + 1 < n) where
  abbrev whole : Ports
  whole = line n all_up false false

  abbrev broken : Ports → Ports
  broken ports = set_up (k + 1) 0 false (set_up k 1 false ports)

  skip_port0 :
      (ports : Ports)
      → flip_port (k + 1) false (line n all_up false false k 0).peer k 0 ports ≡ ports
  skip_port0 ports = ground arith

  flip_port1 :
      (ports : Ports)
      → flip_port (k + 1) false (line n all_up false false k 1).peer k 1 ports ≡ broken ports
  flip_port1 ports = ground arith

  unwired2 : (broken (line n all_up false false) k 2).peer ≡ none
  unwired2 = ground arith

  unwired3 : (broken (line n all_up false false) k 3).peer ≡ none
  unwired3 = ground arith

  flip_all :
      flip_wire k (k + 1) false (0 ∷ 1 ∷ 2 ∷ 3 ∷ []) (line n all_up false false)
      ≡ broken (line n all_up false false)
  flip_all =
      let go = flip_wire k (k + 1) false in
      flip_wire-cons k (k + 1) 0 false (1 ∷ 2 ∷ 3 ∷ []) whole
      ∙ ap (go (1 ∷ 2 ∷ 3 ∷ [])) (skip_port0 whole)
      ∙ flip_wire-cons k (k + 1) 1 false (2 ∷ 3 ∷ []) whole
      ∙ ap (go (2 ∷ 3 ∷ [])) (flip_port1 whole)
      ∙ flip_wire-cons k (k + 1) 2 false (3 ∷ []) (broken whole)
      ∙ ap (λ o. go (3 ∷ []) (flip_port (k + 1) false o k 2 (broken whole))) unwired2
      ∙ flip_wire-cons k (k + 1) 3 false [] (broken whole)
      ∙ ap (λ o. go [] (flip_port (k + 1) false o k 3 (broken whole))) unwired3
      ∙ flip_wire-nil k (k + 1) false (broken whole)

  broken-line :
      (i p : ℕ) → broken (line n all_up false false) i p ≡ line n (all_but k) false false i p
  broken-line i p = ground arith

  pub flip-line :
      flip_wire k (k + 1) false (0 ∷ 1 ∷ 2 ∷ 3 ∷ []) whole ≡ line n (all_but k) false false
  flip-line = flip_all ∙ fun_ext λ i. fun_ext λ p. broken-line i p

-- The master at both ends.
masters-line :
    (n : ℕ) (up : ℕ → Bool) (i p : ℕ)
    → 0 < n
    → set_master n
        (some (n - 1, 1))
        (set_master n (some (0, 0)) (clear_masters (line n up false false)))
        i
        p
      ≡ line n up true true i p
masters-line n up i p h = rw (lt→ltb 0 n h, lt→ltb (n - 1) n (omega arith)) (ground arith)

-- A network on such a line, with the master at both ends.
abbrev pub ringed : Network → Ports → Network
ringed net ports = record net {
  ports = ports;
  injection = some (0, 0);
  redundancy = some (net.size - 1, 1);
}

abbrev pub head_walk : ℕ → (ℕ → Bool) → Walk
head_walk n up = (walk_frame (walk_budget n) (line n up true true) 0 0 (start_walk n none)).1

abbrev pub tail_walk : ℕ → (ℕ → Bool) → Walk
tail_walk n up =
    (walk_frame (walk_budget n) (line n up true true) (n - 1) 1
      (start_walk n (head_walk n up).exit)).1

pub rebuild-line :
    (net : Network) (up : ℕ → Bool) (h : 0 < net.size)
    → let r = rebuild (ringed net (line net.size up false false)) in
      (r.order_nominal ≡ (head_walk net.size up).order)
      × (r.order_redundancy ≡ (tail_walk net.size up).order)
      × (r.is_ring_intact ≡ same_exit (head_walk net.size up).exit (some (net.size - 1, 1)))
unfolding rebuild
rebuild-line net up h =
    let n = net.size in
    let m : set_master n (some (n - 1, 1))
          (set_master n (some (0, 0)) (clear_masters (line n up false false)))
        ≡ line n up true true =
      fun_ext λ i. fun_ext λ p. masters-line n up i p h in
    rw (m, lt→ltb 0 n h, lt→ltb (n - 1) n (omega arith)) (refl, refl, refl)
