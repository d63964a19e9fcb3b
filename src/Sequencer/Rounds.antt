-- ===== src/Sequencer/Rounds.antt =====
-- What the sequencer sends over a whole round.
use kick_cat.Base.{
  ℕ, zero, suc, ◌+◌, ◌*◌, ◌%◌, ◌<◌, ◌≡◌, refl, ap, ◌∙◌, Bool, true, false, ◌&&◌, ◌||◌, ◌==◌, ltb,
  if◌then◌else◌, List, [], ◌∷◌, ◌++◌, Option, none, some, arith, lt→ltb,
}
use kick_cat.Base.Lists.{length}
use kick_cat.Sequencer.{
  Operation, read_checks, read_messages, write_checks, write_messages, Sequencer, start,
  operation_of, step,
}

abbrev logged : Option Operation → List Operation → List Operation
logged none rest = rest
logged (some o) rest = o ∷ rest

-- `n` calls of the main loop.
unfoldable pub calls : Bool → Bool → ℕ → Sequencer → List Operation × Sequencer
unfolding step
calls r w zero s = ([], s)
calls r w (suc n) s =
    let (o, s') = step r w s in let (rest, last) = calls r w n s' in (logged o rest, last)

-- The operations of one round, in their order: those that the process data do are left out.
abbrev pub round_of : Bool → Bool → List Operation
round_of r w =
    (if r then [] else read_checks ∷ [])
    ++ (read_messages ∷ [])
    ++ (if w then [] else write_checks ∷ [])
    ++ (write_messages ∷ [])

abbrev skipped : Bool → Bool → ℕ → ℕ
skipped r w phase = if (phase == 0 && r) || (phase == 2 && w) then (phase + 1) % 4 else phase

abbrev prepend : Operation → List Operation × Sequencer → List Operation × Sequencer
prepend o (os, s) = (o ∷ os, s)

-- One call that sends, and one that only counts.
call_sends :
    (r w : Bool) (n : ℕ) (s : Sequencer)
    → ltb (s.counter + 1) s.period ≡ false
    → calls r w (suc n) s
      ≡ prepend
          (operation_of (skipped r w s.phase))
          (calls r w n (record s { counter = 0; phase = (skipped r w s.phase + 1) % 4 }))
unfolding calls step
call_sends r w n s e = rw e refl

call_counts :
    (r w : Bool) (n : ℕ) (s : Sequencer)
    → ltb (s.counter + 1) s.period ≡ true
    → calls r w (suc n) s ≡ calls r w n (record s { counter = s.counter + 1 })
unfolding calls step
call_counts r w n s e = rw e refl

abbrev standing : ℕ → ℕ → ℕ → Sequencer
standing period counter phase = record { period = period; counter = counter; phase = phase }

-- The last call of a period sends.
one_period :
    (r w : Bool) (k n period counter phase : ℕ)
    → counter + suc k ≡ period
    → calls r w (suc k + n) (standing period counter phase)
      ≡ prepend
          (operation_of (skipped r w phase))
          (calls r w n (standing period 0 ((skipped r w phase + 1) % 4)))
one_period r w zero n period counter phase e =
    let one : 1 + n ≡ suc n = omega arith in
    ap (λ (t : ℕ). calls r w t (standing period counter phase)) one
    ∙ call_sends r w n (standing period counter phase) (ground arith)
one_period r w (suc k) n period counter phase e =
    let one : suc (suc k) + n ≡ suc (suc k + n) = omega arith in
    ap (λ (t : ℕ). calls r w t (standing period counter phase)) one
    ∙ call_counts r w (suc k + n) (standing period counter phase)
        (lt→ltb (counter + 1) period (omega (arith, e)))
    ∙ one_period r w k n period (counter + 1) phase (omega (arith, e))

-- The same with the number of calls written as a multiple of the period.
period_of :
    (r w : Bool) (n period phase : ℕ)
    → 0 < period
    → calls r w (suc n * period) (standing period 0 phase)
      ≡ prepend
          (operation_of (skipped r w phase))
          (calls r w (n * period) (standing period 0 ((skipped r w phase + 1) % 4)))
period_of r w n zero phase h = absurd (omega (arith, h))
period_of r w n (suc p) phase h =
    let e : suc n * suc p ≡ suc p + n * suc p = ground arith in
    ap (λ (t : ℕ). calls r w t (standing (suc p) 0 phase)) e
    ∙ one_period r w p (n * suc p) (suc p) 0 phase (omega arith)

none_left : (r w : Bool) (period : ℕ) → calls r w (0 * period) (start period) ≡ ([], start period)
unfolding calls
none_left r w period =
    let z : 0 * period ≡ 0 = omega arith in ap (λ (t : ℕ). calls r w t (start period)) z

-- With a period of at least one, as many periods as a round has operations send just these, each
-- once and in their order, and leave the sequencer as it was at the start.
pub round-sends :
    (r w : Bool) (period : ℕ)
    → 0 < period
    → calls r w (length (round_of r w) * period) (start period) ≡ (round_of r w, start period)
round-sends false false period h =
    period_of false false 3 period 0 h
    ∙ ap (prepend read_checks) (
        period_of false false 2 period 1 h
        ∙ ap (prepend read_messages) (
            period_of false false 1 period 2 h
            ∙ ap (prepend write_checks) (
                period_of false false 0 period 3 h
                ∙ ap (prepend write_messages) (none_left false false period))))
round-sends true false period h =
    period_of true false 2 period 0 h
    ∙ ap (prepend read_messages) (
        period_of true false 1 period 2 h
        ∙ ap (prepend write_checks) (
            period_of true false 0 period 3 h
            ∙ ap (prepend write_messages) (none_left true false period)))
round-sends false true period h =
    period_of false true 2 period 0 h
    ∙ ap (prepend read_checks) (
        period_of false true 1 period 1 h
        ∙ ap (prepend read_messages) (
            period_of false true 0 period 2 h
            ∙ ap (prepend write_messages) (none_left false true period)))
round-sends true true period h =
    period_of true true 1 period 0 h
    ∙ ap (prepend read_messages) (
        period_of true true 0 period 2 h ∙ ap (prepend write_messages) (none_left true true period))
