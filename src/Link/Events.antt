-- ===== src/Link/Events.antt =====
-- The events of checkEcatEvents are triggered by the rising edges of the bits.
use kick_cat.Base.{
  ℕ, zero, suc, ◌+◌, ◌/◌, ◌%◌, ◌≡◌, refl, ◌∙◌, Bool, ◌==◌, if◌then◌else◌, List, [], ◌∷◌, arith, not,
  ◌&&◌,
}
use kick_cat.Link.{Irq}
use kick_cat.Link.Process.{check_events}

module _ {S : Type 0} where
  -- attachEcatEventCallback, its loop over the bits of the mask; an empty callback has thrown.
  unfoldable pub attach : ℕ → (S → S) → List (Irq S) → List (Irq S)
  attach mask callback [] = []
  attach mask callback (e ∷ es) =
      (if mask % 2 == 1 then record e { callback = callback } else e)
      ∷ attach (mask / 2) callback es

  -- The words that one call of processDatagrams after the other has gathered.
  unfoldable pub check_all : List ℕ → List (Irq S) → S → List (Irq S) × S
  check_all [] es s = (es, s)
  check_all (irq ∷ irqs) es s = let (es', s') = check_events irq es s in check_all irqs es' s'

-- Bit `k` of a word.
abbrev pub bit : ℕ → ℕ → Bool
bit zero w = w % 2 == 1
bit (suc k) w = bit k (w / 2)

-- How often a bit rises in the words, when it was set before them or not.
abbrev pub rises : Bool → ℕ → List ℕ → ℕ
rises before k [] = 0
rises before k (w ∷ ws) = (if bit k w && not before then 1 else 0) + rises (bit k w) k ws

-- The events from a place on leave the count.
abbrev pub Silent : {S : Type 0} → (S → ℕ) → List (Irq S) → Type 0
Silent count [] = Unit
Silent {S} count (e ∷ es) = ((s : S) → count (e.callback s) ≡ count s) × Silent count es

-- The event at place `k` is armed or not, and raises the count by one; the others leave it.
abbrev pub Counts : {S : Type 0} → (S → ℕ) → ℕ → Bool → List (Irq S) → Type 0
Counts count k armed [] = ⊥
Counts {S} count zero armed (e ∷ es) =
    (e.is_armed ≡ armed) × ((s : S) → count (e.callback s) ≡ count s + 1) × Silent count es
Counts {S} count (suc k) armed (e ∷ es) =
    ((s : S) → count (e.callback s) ≡ count s) × Counts count k armed es

module _ {S : Type 0} (count : S → ℕ) where
  pub check-Silent :
      (irq : ℕ) (es : List (Irq S)) (s : S)
      → Silent count es
      → Silent count (check_events irq es s).0 × (count (check_events irq es s).1 ≡ count s)
  unfolding check_events
  check-Silent irq [] s h = (tt, refl)
  check-Silent irq (e ∷ es) s h =
      let s1 = if (irq % 2 == 1) && e.is_armed then e.callback s else s in
      let (a, b) = check-Silent (irq / 2) es s1 h.1 in
      let c : count s1 ≡ count s = ground (arith, h.0 s) in ((h.0, a), b ∙ c)

  check-Counts :
      (k irq : ℕ) (armed : Bool) (es : List (Irq S)) (s : S)
      → Counts count k armed es
      → Counts count k (not (bit k irq)) (check_events irq es s).0
        × (count (check_events irq es s).1 ≡ count s + (if bit k irq && armed then 1 else 0))
  unfolding check_events
  check-Counts k irq armed [] s h = absurd h
  check-Counts zero irq armed (e ∷ es) s (a, c, rest) =
      let s1 = if (irq % 2 == 1) && e.is_armed then e.callback s else s in
      let (t, b) = check-Silent (irq / 2) es s1 rest in ((refl, c, t), ground (arith, b, c s))
  check-Counts (suc k) irq armed (e ∷ es) s (c, rest) =
      let s1 = if (irq % 2 == 1) && e.is_armed then e.callback s else s in
      let (t, b) = check-Counts k (irq / 2) armed es s1 rest in ((c, t), ground (arith, b, c s))

  -- Over any sequence of event words, the callback of an event that is armed exactly when its bit
  -- was not set before is called once for every rising edge of its bit.
  pub check_all-rises :
      (k : ℕ) (before : Bool) (irqs : List ℕ) (es : List (Irq S)) (s : S)
      → Counts count k (not before) es
      → count (check_all irqs es s).1 ≡ count s + rises before k irqs
  unfolding check_all
  check_all-rises k before [] es s h = omega arith
  check_all-rises k before (irq ∷ irqs) es s h =
      let (t, b) = check-Counts k irq (not before) es s h in
      let (es', s') = check_events irq es s in
      omega (arith, check_all-rises k (bit k irq) irqs es' s' t, b)
