-- ===== src/Emulated/Network/Line.antt =====
-- The wires of a line of slaves, some of them broken, and the walks of a frame along them.
use mathlib.Core.List.{append_assoc}
use kick_cat.Base.{
  ℕ, zero, suc, ◌+◌, ◌-◌, ◌≤◌, ◌<◌, ◌≡◌, refl, sym, ap, ◌∙◌, Bool, true, false, ◌&&◌, ◌==◌, ltb,
  if◌then◌else◌, List, [], ◌∷◌, ◌++◌, Option, none, some, arith, lt→ltb, le→ltb, ==_self, ==_ne,
}
use kick_cat.Emulated.Network.{Ports, Hop, Walk, open_port, walk_ports, walk_frame, pass}

-- Port 1 of each node leads to port 0 of the next; `up i` tells of the wire behind node `i`.
-- `head` and `tail` tell whether the master is at the two ends.
abbrev pub line : ℕ → (ℕ → Bool) → Bool → Bool → Ports
line n up head tail i p =
    if p == 1
    then (if ltb (i + 1) n
        then record { peer = some (i + 1, 0); to_master = false; up = up i }
        else record { peer = none; to_master = tail && (i + 1 == n); up = true })
    else if p == 0
    then (if i == 0
        then record { peer = none; to_master = head; up = true }
        else if ltb i n
        then record { peer = some (i - 1, 1); to_master = false; up = up (i - 1) }
        else open_port)
    else open_port

-- The passages of the nodes from `i` on, `suc k` of them.
abbrev pub hops : ℕ → ℕ → List Hop
hops i zero = record { node = i; is_port0_closed = false } ∷ []
hops i (suc k) = record { node = i; is_port0_closed = false } ∷ hops (i + 1) k

abbrev pub after : Walk → List Hop → Option (ℕ × ℕ) → ℕ → Walk
after w hs exit n = record { order = w.order ++ hs; exit = exit; budget = w.budget - n }

-- One passage, then others.
joined :
    {b : Bool} (h : Hop) (hs : List Hop) (w : Walk) (exit : Option (ℕ × ℕ)) (k m : ℕ)
    → w.budget - 1 - k ≡ w.budget - m
    → ◌≡◌ {A = Bool × Walk}
        (b, record { order = (w.order ++ (h ∷ [])) ++ hs; exit = exit; budget = w.budget - 1 - k })
        (b, after w (h ∷ hs) exit m)
joined h hs w exit k m e = rw (append_assoc w.order (h ∷ []) hs, e) refl

module _ (n : ℕ) (up : ℕ → Bool) (head tail : Bool) where
  -- Where a frame that runs down the line turns back.
  pub forward_to_break :
      (k fuel i : ℕ) (w : Walk)
      → i + k + 1 < n
      → ((j : ℕ) → i ≤ j → j < i + k → up j ≡ true)
      → up (i + k) ≡ false
      → k < fuel
      → k < w.budget
      → walk_frame fuel (line n up head tail) i 0 w ≡ (false, after w (hops i k) w.exit (suc k))
  unfolding walk_frame walk_ports
  forward_to_break zero zero i w h u d f b = absurd (omega arith)
  forward_to_break (suc k) zero i w h u d f b = absurd (omega arith)
  forward_to_break zero (suc fuel) i w h u d f b =
      let e : i + 0 ≡ i = omega arith in
      rw (==_ne w.budget 0 (omega arith), lt→ltb (i + 1) n (omega arith), ap up (sym e) ∙ d) refl
  forward_to_break (suc k) (suc fuel) i w h u d f b =
      let e : i + suc k ≡ i + 1 + k = omega arith in
      let w1 : Walk = pass i false (record w { budget = w.budget - 1 }) in
      let ih =
        forward_to_break k fuel (i + 1) w1 (omega arith) (λ j a c. u j (omega arith) (omega arith))
          (ap up (sym e) ∙ d) (omega arith) (omega arith) in
      rw
        (
          ==_ne w.budget 0 (omega arith),
          lt→ltb (i + 1) n (omega arith),
          u i (omega arith) (omega arith),
          ih,
        )
        (joined (record { node = i; is_port0_closed = false }) (hops (i + 1) k) w w.exit (suc k)
          (suc (suc k)) (omega arith))

-- The passages of a frame that came up the line and turned back at the closed port of node `s`.
abbrev pub back : ℕ → ℕ → List Hop
back s zero = record { node = s; is_port0_closed = true } ∷ []
back s (suc k) = back s k ++ (record { node = s + suc k; is_port0_closed = false } ∷ [])

module _ (n : ℕ) (up : ℕ → Bool) (head : Bool) where
  -- A frame that runs down the whole line leaves by the port of the master at its end.
  pub forward_to_master :
      (k fuel i : ℕ) (w : Walk)
      → i + k + 1 ≡ n
      → ((j : ℕ) → j < n - 1 → up j ≡ true)
      → k < fuel
      → k < w.budget
      → walk_frame fuel (line n up head true) i 0 w
        ≡ (true, after w (hops i k) (some (n - 1, 1)) (suc k))
  unfolding walk_frame walk_ports
  forward_to_master zero zero i w h u f b = absurd (omega arith)
  forward_to_master (suc k) zero i w h u f b = absurd (omega arith)
  forward_to_master zero (suc fuel) i w h u f b =
      let e : i ≡ n - 1 = omega arith in
      rw
        (
          ==_ne w.budget 0 (omega arith),
          le→ltb (i + 1) n (omega arith),
          ==_self (i + 1) n (omega arith),
        )
        (ap (λ (j : ℕ). (true, after w (hops i 0) (some (j, 1)) 1)) e)
  forward_to_master (suc k) (suc fuel) i w h u f b =
      let w1 : Walk = pass i false (record w { budget = w.budget - 1 }) in
      let ih = forward_to_master k fuel (i + 1) w1 (omega arith) u (omega arith) (omega arith) in
      rw (==_ne w.budget 0 (omega arith), lt→ltb (i + 1) n (omega arith), u i (omega arith), ih)
        (joined (record { node = i; is_port0_closed = false }) (hops (i + 1) k) w (some (n - 1, 1))
          (suc k) (suc (suc k)) (omega arith))

module _ (n : ℕ) (up : ℕ → Bool) (head tail : Bool) where
  -- A frame that runs up the line to a broken wire turns back at the node behind it.
  pub backward_to_break :
      (k fuel s : ℕ) (w : Walk)
      → 0 < s
      → s + k < n
      → up (s - 1) ≡ false
      → ((j : ℕ) → s ≤ j → j < s + k → up j ≡ true)
      → k < fuel
      → k < w.budget
      → walk_frame fuel (line n up head tail) (s + k) 1 w
        ≡ (false, after w (back s k) w.exit (suc k))
  unfolding walk_frame walk_ports
  backward_to_break zero zero s w p i d u f b = absurd (omega arith)
  backward_to_break (suc k) zero s w p i d u f b = absurd (omega arith)
  backward_to_break zero (suc fuel) s w p i d u f b =
      let e : s + 0 ≡ s = omega arith in
      rw (e, ==_ne w.budget 0 (omega arith), ==_ne s 0 (omega arith), lt→ltb s n (omega arith), d)
        refl
  backward_to_break (suc k) (suc fuel) s w p i d u f b =
      let e : s + suc k - 1 ≡ s + k = omega arith in
      let less : w.budget - 1 - suc k ≡ w.budget - suc (suc k) = omega arith in
      let w1 : Walk = record w { budget = w.budget - 1 } in
      let ih =
        backward_to_break k fuel s w1 p (omega arith) d (λ j a c. u j a (omega arith)) (omega arith)
          (omega arith) in
      rw
        (
          ==_ne w.budget 0 (omega arith),
          ==_ne (s + suc k) 0 (omega arith),
          lt→ltb (s + suc k) n i,
          e,
          u (s + k) (omega arith) (omega arith),
          ih,
        )
        (rw
          (
            append_assoc w.order (back s k)
                (record { node = s + suc k; is_port0_closed = false } ∷ []),
            less,
          )
          refl)

  pub backward_to_master :
      (k fuel : ℕ) (w : Walk)
      → k < n
      → head ≡ true
      → ((j : ℕ) → j < k → up j ≡ true)
      → k < fuel
      → k < w.budget
      → walk_frame fuel (line n up head tail) k 1 w
        ≡ (true, record { order = w.order; exit = some (0, 0); budget = w.budget - suc k })
  unfolding walk_frame walk_ports
  backward_to_master zero zero w i m u f b = absurd (omega arith)
  backward_to_master (suc k) zero w i m u f b = absurd (omega arith)
  backward_to_master zero (suc fuel) w i m u f b = rw (==_ne w.budget 0 (omega arith), m) refl
  backward_to_master (suc k) (suc fuel) w i m u f b =
      let e : suc k - 1 ≡ k = omega arith in
      let less : w.budget - 1 - suc k ≡ w.budget - suc (suc k) = omega arith in
      let w1 : Walk = record w { budget = w.budget - 1 } in
      let ih =
        backward_to_master k fuel w1 (omega arith) m (λ j c. u j (omega arith)) (omega arith)
          (omega arith) in
      rw
        (
          ==_ne w.budget 0 (omega arith),
          ==_ne (suc k) 0 (omega arith),
          lt→ltb (suc k) n i,
          e,
          u k (omega arith),
          ih,
        )
        (rw less refl)
