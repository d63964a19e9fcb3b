-- ===== src/Mailbox/Request/Order.antt =====
-- Which message takes a reply, and what becomes of the others (lib/src/Mailbox.cc).
use kick_cat.Base.{
  ℕ, ◌≤◌, ◌≡◌, ◌≢◌, refl, ap, ◌∙◌, arith, Bool, true, false, List, [], ◌∷◌, ◌++◌, none, subst,
  ==_self, ==_ne,
}
use kick_cat.Base.Lists.{All}
use kick_cat.CoE.Message.{ProcessingResult, noop, continue, finalize, finalize_and_keep, timedout}
use kick_cat.Mailbox.{next_counter}
use kick_cat.Mailbox.Request.{MessageOps, Mailbox, enqueue, expire, offer, requeue, receive}

-- From a handle of at most 7, the next one is between 1 and 7 (0 stands for a message without one),
-- and differs from it.
pub next_counter-range :
    (counter : ℕ)
    → counter ≤ 7
    → (1 ≤ next_counter counter) × (next_counter counter ≤ 7) × (next_counter counter ≢ counter)
next_counter-range counter h = ground arith

append_nil : {A : Type 0} (xs : List A) → xs ++ [] ≡ xs
append_nil [] = refl
append_nil (x ∷ xs) = ap (λ r. x ∷ r) (append_nil xs)

module _ {M R : Type 0} (ops : MessageOps M R) where
  -- The mailbox after the message between `pre` and `post` has taken a reply with this result.
  abbrev pub settle : ProcessingResult → M → List M → List M → Mailbox M → Bool × Mailbox M
  settle noop m pre post b = (false, record b { to_process = pre ++ m ∷ post })
  settle continue m pre post b = (true, enqueue ops m (record b { to_process = pre ++ post }))
  settle finalize m pre post b = (true, record b { to_process = pre ++ post })
  settle finalize_and_keep m pre post b = (true, record b { to_process = pre ++ m ∷ post })

  abbrev pub Passes : R → M → Type 0
  Passes r m = (ops.process r m).0 ≡ noop

  offer_pass :
      (r : R) (m : M) (ms : List M)
      → Passes r m
      → offer ops r (m ∷ ms) ≡ ((offer ops r ms).0, m ∷ (offer ops r ms).1, (offer ops r ms).2)
  unfolding offer
  offer_pass r m ms h = rw (offer, h, ops.noop-same r m h) refl

  offer_past :
      (r : R) (pre ms : List M)
      → All (Passes r) pre
      → offer ops r (pre ++ ms)
        ≡ ((offer ops r ms).0, pre ++ (offer ops r ms).1, (offer ops r ms).2)
  offer_past r [] ms h = refl
  offer_past r (m ∷ pre) ms (h, hs) =
      offer_pass r m (pre ++ ms) h ∙ ap (λ o. (o.0, m ∷ o.1, o.2)) (offer_past r pre ms hs)

  offer-settle :
      (r : R) (m : M) (pre post : List M) (b : Mailbox M)
      → (ops.process r m).0 ≢ noop
      → (
        (offer ops r (m ∷ post)).0,
        requeue ops
            (offer ops r (m ∷ post)).2
            (record b { to_process = pre ++ (offer ops r (m ∷ post)).1 }),
      )
        ≡ settle (ops.process r m).0 (ops.process r m).1 pre post b
  unfolding offer
  offer-settle r m pre post b h = by_result (ops.process r m).0 refl h
    where
      by_result :
          (q : ProcessingResult)
          → (ops.process r m).0 ≡ q
          → q ≢ noop
          → (
            (offer ops r (m ∷ post)).0,
            requeue ops
                (offer ops r (m ∷ post)).2
                (record b { to_process = pre ++ (offer ops r (m ∷ post)).1 }),
          )
            ≡ settle q (ops.process r m).1 pre post b
      by_result noop e n = absurd (n refl)
      by_result continue e n = rw (offer, e) refl
      by_result finalize e n = rw (offer, e) refl
      by_result finalize_and_keep e n = rw (offer, e) refl

  -- The messages that still wait at a time: those whose time has run out are left out, and the
  -- others have noted the time.
  pub data Waiting (now : ℕ) : List M → List M → Type 0 where
    nothing : Waiting now [] []
    timed_out :
        {m : M} {ms ms' : List M}
        → (ops.status_at now m).0 ≡ timedout
        → Waiting now ms ms'
        → Waiting now (m ∷ ms) ms'
    in_time :
        {m : M} {ms ms' : List M}
        → (ops.status_at now m).0 ≢ timedout
        → Waiting now ms ms'
        → Waiting now (m ∷ ms) ((ops.status_at now m).1 ∷ ms')

  expire-Waiting : (now : ℕ) (ms ms' : List M) → Waiting now ms ms' → expire ops now ms ≡ ms'
  unfolding expire
  expire-Waiting now [] [] nothing = refl
  expire-Waiting now [] (_ ∷ ms') w = elim w [ ]
  expire-Waiting now (m ∷ ms) ms' (timed_out e w) =
      let t = ==_self (ops.status_at now m).0 timedout e in rw t (expire-Waiting now ms ms' w)
  expire-Waiting now (m ∷ ms) (_ ∷ ms') (in_time n w) =
      let t = ==_ne (ops.status_at now m).0 timedout n in
      rw t (ap (λ r. (ops.status_at now m).1 ∷ r) (expire-Waiting now ms ms' w))

  -- A reply goes to the first message that takes it, of those whose time has not run out: the
  -- messages before it, which all pass, and those behind it stay as they are and in their order, and
  -- those whose time has run out are gone.
  pub receive_first :
      (r : R) (now : ℕ) (b : Mailbox M) (pre post : List M) (m : M)
      → Waiting now b.to_process (pre ++ m ∷ post)
      → All (Passes r) pre
      → (ops.process r m).0 ≢ noop
      → receive ops r now b ≡ settle (ops.process r m).0 (ops.process r m).1 pre post b
  unfolding receive
  receive_first r now b pre post m w h n =
      let e = expire-Waiting now b.to_process (pre ++ m ∷ post) w in
      rw (e, offer_past r pre (m ∷ post) h) (offer-settle r m pre post b n)

  -- When every message passes, nothing changes but that those whose time has run out are gone.
  pub receive_none :
      (r : R) (now : ℕ) (b : Mailbox M)
      → All (Passes r) (expire ops now b.to_process)
      → receive ops r now b ≡ (false, record b { to_process = expire ops now b.to_process })
  unfolding receive offer
  receive_none r now b h =
      let all : expire ops now b.to_process ++ [] ≡ expire ops now b.to_process =
        append_nil (expire ops now b.to_process) in
      let o : offer ops r (expire ops now b.to_process)
          ≡ (false, expire ops now b.to_process, none) =
        subst (λ ms. offer ops r ms ≡ (false, ms, none)) all
          (offer_past r (expire ops now b.to_process) [] h) in
      rw o refl
