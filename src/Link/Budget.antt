-- ===== src/Link/Budget.antt =====
-- How often processDatagrams reads, and the callbacks that it leaves alone.
use kick_cat.Base.{
  ℕ, zero, suc, ◌+◌, ◌*◌, ◌≤◌, ◌≡◌, refl, ◌∙◌, Bool, true, false, arith, ◌⊎◌, inl, inr, sym, ap,
  subst, Bool-cases, ==_ne, ==_self,
}
use native.Mathlib.Decide.{ℕ_discrete}
use kick_cat.Frame.{Datagram}
use kick_cat.Link.{
  Link, Sockets, Callbacks, DatagramState, is_ok, is_stale, finalize_datagrams, set_status,
}
use kick_cat.Link.Process.{Round, round, rounds, read, process_datagrams, conclude}
use kick_cat.Link.Loop.{Rule, rounds_keeps}

-- `reads` counts the calls of Link::read: the first socket that it reads raises it.
module _ {S W : Type 0} (net : Sockets W) (reads : W → ℕ)
    (first_reads : (w : W) → reads (net.read_redundancy w).1 ≡ reads w + 1)
    (second_same : (w : W) → reads (net.read_nominal w).1 ≡ reads w) where
  round-reads : (r : Round S) (w : W) → reads (round net r w).1 ≡ reads w + 1
  unfolding round read
  round-reads r w = second_same (net.read_redundancy w).1 ∙ first_reads w

  rounds-reads :
      (n budget : ℕ) (r : Round S) (w : W)
      → (reads w + n ≤ reads (rounds net n budget r w).1)
        × (reads (rounds net n budget r w).1 ≤ reads w + n + budget)
  unfolding rounds
  rounds-reads zero budget r w = (omega arith, omega arith)
  rounds-reads (suc n) zero r w =
      let r' = round net r w in ground (arith, rounds-reads n zero r'.0 r'.1, round-reads r w)
  rounds-reads (suc n) (suc budget) r w =
      let r' = round net r w in
      ground (
        arith,
        rounds-reads (suc n) budget r'.0 r'.1,
        rounds-reads n (suc budget) r'.0 r'.1,
        round-reads r w,
      )

  -- processDatagrams reads at least once for every frame that has been sent, and at most twice as
  -- often, however many stale or desynchronized frames the sockets bring.
  pub process-reads :
      (l : Link S) (w : W) (s : S)
      → let f = finalize_datagrams net l w in
        let after = reads (process_datagrams net l w s).world in
        (reads f.1 + f.0.sent_frame ≤ after) × (after ≤ reads f.1 + 2 * f.0.sent_frame)
  unfolding process_datagrams conclude
  process-reads l w s =
      let f = finalize_datagrams net l w in
      let start : Round S = record {
        link = record f.0 { sent_frame = 0 };
        client = s;
        irq = 0;
        is_stale_frame = false;
        is_dropped = false;
      } in
      ground (arith, rounds-reads f.0.sent_frame f.0.sent_frame start f.1)

-- The callbacks that may not be called: those outside the window, and those that were answered.
module _ {S : Type 0} (l0 : Link S) (Q : S → Type 0) where
  abbrev pub IsSilent : ℕ → Type 0
  IsSilent i = (is_stale l0 i ≡ true) ⊎ (is_ok (l0.callbacks i).status ≡ true)

  -- `Q` is kept by the callbacks of the window that wait for an answer; the others may break it.
  abbrev pub KeptByWaiting : Type 0
  KeptByWaiting =
      (i : ℕ) (d : Datagram) (s : S)
      → is_stale l0 i ≡ false
      → is_ok (l0.callbacks i).status ≡ false
      → Q s
      → Q ((l0.callbacks i).process d s).1

  record Untouched (l : Link S) (s : S) : Type 0 where
    queue_same : l.index_queue ≡ l0.index_queue
    head_same : l.index_head ≡ l0.index_head
    silent_same : (i : ℕ) → IsSilent i → l.callbacks i ≡ l0.callbacks i
    process_same : (i : ℕ) → (l.callbacks i).process ≡ (l0.callbacks i).process
    client_kept : Q s

  still_fresh :
      (l : Link S) (i : ℕ)
      → l.index_queue ≡ l0.index_queue
      → l.index_head ≡ l0.index_head
      → is_stale l i ≡ is_stale l0 i
  unfolding is_stale
  still_fresh l i q h = rw (q, h) refl

  silent_step :
      (l : Link S) (s : S) (d : Datagram)
      → is_stale l0 d.header.index ≡ false
      → is_ok (l0.callbacks d.header.index).status ≡ false
      → ((i : ℕ) → IsSilent i → l.callbacks i ≡ l0.callbacks i)
      → (j : ℕ) → IsSilent j
      → set_status d.header.index ((l.callbacks d.header.index).process d s).0 l.callbacks j
        ≡ l0.callbacks j
  silent_step l s d fresh open_ same j silent = elim (ℕ_discrete j d.header.index) [
    | yes e ↦ elim silent [
      | inl stale ↦ absurd (ground (arith, sym stale ∙ ap (is_stale l0) e ∙ fresh))
      | inr ok ↦
          absurd (ground (arith, sym ok ∙ ap (λ (i : ℕ). is_ok (l0.callbacks i).status) e ∙ open_))
    ]
    | no n ↦ rw (==_ne j d.header.index n) (same j silent)
  ]

  process_step :
      (l : Link S) (d : Datagram) (status : DatagramState)
      → ((i : ℕ) → (l.callbacks i).process ≡ (l0.callbacks i).process)
      → (j : ℕ)
      → (set_status d.header.index status l.callbacks j).process ≡ (l0.callbacks j).process
  process_step l d status same j = elim (ℕ_discrete j d.header.index) [
    | yes e ↦
        rw (==_self j d.header.index e) (ap (λ (i : ℕ). (l.callbacks i).process) (sym e) ∙ same j)
    | no n ↦ rw (==_ne j d.header.index n) (same j)
  ]

  Untouched-Rule : KeptByWaiting → Rule Untouched
  Untouched-Rule keeps = record {
    frames = λ l s a b u. record {
      queue_same = u.queue_same;
      head_same = u.head_same;
      silent_same = u.silent_same;
      process_same = u.process_same;
      client_kept = u.client_kept;
    };
    delivered = λ l s d fresh unanswered u.
        let i = d.header.index in
        let status = ((l.callbacks i).process d s).0 in
        let fresh0 : is_stale l0 i ≡ false =
          sym (still_fresh l i u.queue_same u.head_same) ∙ fresh in
        let open0 : is_ok (l0.callbacks i).status ≡ false =
          elim (Bool-cases (is_ok (l0.callbacks i).status)) [
            | inl ok ↦
                let same = ap (λ (c : Callbacks S). is_ok c.status) (u.silent_same i (inr ok)) in
                absurd (ground (arith, sym unanswered ∙ same ∙ ok))
            | inr open_ ↦ open_
          ] in
        record {
          queue_same = u.queue_same;
          head_same = u.head_same;
          silent_same = λ j silent. silent_step l s d fresh0 open0 u.silent_same j silent;
          process_same = λ j. process_step l d ((l.callbacks i).process d s).0 u.process_same j;
          client_kept =
              subst (λ f. Q (f d s).1) (sym (u.process_same i))
                (keeps i d s fresh0 open0 u.client_kept);
        };
  }

  -- Whatever the sockets bring, the loops of processDatagrams call only callbacks of the window of
  -- the datagrams in flight that have not been answered: what these keep of the client stays true,
  -- whatever the callbacks of a former cycle and of an answered datagram would do to it; and the
  -- callbacks of an index of a former cycle or with an answer, and the window, stay as they are.
  pub rounds-callbacks :
      {W : Type 0} (net : Sockets W) (n budget irq : ℕ) (stale dropped : Bool) (w : W) (s : S)
      → KeptByWaiting
      → Q s
      → (i : ℕ) → IsSilent i
      → let r : Round S = record {
        link = l0;
        client = s;
        irq = irq;
        is_stale_frame = stale;
        is_dropped = dropped;
      } in
        let r' = (rounds net n budget r w).0 in
        Q r'.client
        × (r'.link.callbacks i ≡ l0.callbacks i)
        × (r'.link.index_queue ≡ l0.index_queue)
        × (r'.link.index_head ≡ l0.index_head)
  rounds-callbacks net n budget irq stale dropped w s keeps q i silent =
      let u = rounds_keeps (Untouched-Rule keeps) net n budget _ w (record {
        queue_same = refl;
        head_same = refl;
        silent_same = λ j k. refl;
        process_same = λ j. refl;
        client_kept = q;
      }) in
      (u.client_kept, u.silent_same i silent, u.queue_same, u.head_same)
