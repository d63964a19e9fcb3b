-- ===== src/Link/Answers.antt =====
-- Every datagram in flight is answered, or its error callback is called once.
use kick_cat.Base.{
  ℕ, zero, suc, ◌+◌, ◌%◌, ◌≤◌, ◌<◌, ◌≡◌, ◌≢◌, refl, ◌∙◌, Bool, false, ◌||◌, ◌==◌, ltb,
  if◌then◌else◌, arith, Bool-cases, inl, inr, not, ◌&&◌,
}
use kick_cat.Frame.{Datagram}
use kick_cat.Link.{
  DatagramState, Callbacks, Link, Sockets, is_ok, in_flight, sub8, set_status, finalize_datagrams,
  send_frame, mark_unsent,
}
use kick_cat.Link.Process.{Round, rounds, report, conclude, process_datagrams, check_events}
use kick_cat.Link.Loop.{Rule, rounds_keeps}

-- A count of the client that the error callback of index `j` raises by one, and that nothing else
-- that the link calls changes.
pub record Counts {S : Type 0} (count : S → ℕ) (j : ℕ) (l : Link S) : Type 0 where
  pub error_counts :
      (status : DatagramState) (s : S) → count ((l.callbacks j).error status s).1 ≡ count s + 1
  pub error_other :
      (i : ℕ) (status : DatagramState) (s : S)
      → i ≢ j
      → count ((l.callbacks i).error status s).1 ≡ count s
  pub process_same :
      (i : ℕ) (d : Datagram) (s : S) → count ((l.callbacks i).process d s).1 ≡ count s
  pub events_same : (irq : ℕ) (s : S) → count (check_events irq l.irqs s).1 ≡ count s

module _ {S : Type 0} (count : S → ℕ) (j : ℕ) where
  abbrev missed : ℕ → ℕ → (ℕ → Callbacks S) → ℕ
  missed n i cs = if ltb (sub8 j i) n && not (is_ok (cs j).status) then 1 else 0

  report-count :
      (n i : ℕ) (cs : ℕ → Callbacks S) (threw : Bool) (s : S)
      → j < 256
      → i < 256
      → n ≤ 256
      → ((status : DatagramState) (s : S) → count ((cs j).error status s).1 ≡ count s + 1)
      → ((k : ℕ) (status : DatagramState) (s : S)
          → k ≢ j
          → count ((cs k).error status s).1 ≡ count s)
      → count (report n i cs threw s).1 ≡ count s + missed n i cs
  unfolding report
  report-count zero i cs threw s hj hi hn counts other = ground arith
  report-count (suc n) i cs threw s hj hi hn counts other =
      let s' = ((cs i).error (cs i).status s).1 in
      let t = ((cs i).error (cs i).status s).0 in
      ground (
        arith,
        counts (cs i).status s,
        other i (cs i).status s,
        report-count n ((i + 1) % 256) cs threw s hj (omega arith) (omega arith) counts other,
        report-count n ((i + 1) % 256) cs (threw || t) s' hj (omega arith) (omega arith) counts
            other,
      )

  -- Setting a status leaves the functions.
  set_status-Counts :
      (i : ℕ) (status : DatagramState) (l : Link S)
      → Counts count j l
      → Counts count j (record l { callbacks = set_status i status l.callbacks })
  set_status-Counts i status l c = record {
    error_counts = λ st s. ground (arith, c.error_counts st s);
    error_other = λ k st s h. ground (arith, c.error_other k st s h);
    process_same = λ k d s. ground (arith, c.process_same k d s);
    events_same = λ irq s. c.events_same irq s;
  }

  record Running (before queue head : ℕ) (l : Link S) (s : S) : Type 0 where
    counts : Counts count j l
    no_more : count s ≡ before
    queue_is : l.index_queue ≡ queue
    head_is : l.index_head ≡ head

  Running-Rule : (before queue head : ℕ) → Rule (Running before queue head)
  Running-Rule before queue head = record {
    frames = λ l s a b r. record {
      counts = record {
        error_counts = r.counts.error_counts;
        error_other = r.counts.error_other;
        process_same = r.counts.process_same;
        events_same = r.counts.events_same;
      };
      no_more = r.no_more;
      queue_is = r.queue_is;
      head_is = r.head_is;
    };
    delivered = λ l s d fresh unanswered r. record {
      counts = set_status-Counts d.header.index _ l r.counts;
      no_more = r.counts.process_same d.header.index d s ∙ r.no_more;
      queue_is = r.queue_is;
      head_is = r.head_is;
    };
  }

  conclude-count :
      {W : Type 0} (r : Round S) (w : W)
      → Counts count j r.link
      → j < 256
      → r.link.index_queue < 256
      → let p = conclude r w in
        (count p.client
          ≡ count r.client + missed (in_flight r.link) r.link.index_queue r.link.callbacks)
        × (p.link.callbacks j ≡ r.link.callbacks j)
        × (p.link.index_queue ≡ r.link.index_head)
        × (p.link.index_head ≡ r.link.index_head)
  unfolding conclude
  conclude-count r w c hj hq =
      let l = r.link in
      let t = report (in_flight l) l.index_queue l.callbacks false r.client in
      ground (
        arith,
        report-count (in_flight l) l.index_queue l.callbacks false r.client hj hq (omega arith)
            c.error_counts (λ k status s h. c.error_other k status s h),
        c.events_same r.irq t.1,
      )

  mark_unsent-Counts :
      (n head : ℕ) (l : Link S)
      → Counts count j l
      → Counts count j (record l { callbacks = mark_unsent n head l.callbacks })
  unfolding mark_unsent
  mark_unsent-Counts zero head l c = record {
    error_counts = c.error_counts;
    error_other = c.error_other;
    process_same = c.process_same;
    events_same = c.events_same;
  }
  mark_unsent-Counts (suc n) head l c =
      set_status-Counts (sub8 head (suc n)) DatagramState.send_error
        (record l { callbacks = mark_unsent n head l.callbacks }) (mark_unsent-Counts n head l c)

-- Sending a frame keeps the functions, the window, and the status of what is not in the frame.
module _ {S W : Type 0} (net : Sockets W) (count : S → ℕ) (j : ℕ) (l : Link S) (w : W)
    (c : Counts count j l) where
  send_frame-Counts : Counts count j (send_frame net l w).0
  unfolding send_frame
  send_frame-Counts =
      let m = mark_unsent-Counts count j l.nominal.counter l.index_head l c in
      record {
        error_counts = λ st s. ground (arith, c.error_counts st s, m.error_counts st s);
        error_other = λ k st s h. ground (arith, c.error_other k st s h, m.error_other k st s h);
        process_same = λ k d s. ground (arith, c.process_same k d s, m.process_same k d s);
        events_same = c.events_same;
      }

  finalize-Counts : Counts count j (finalize_datagrams net l w).0
  unfolding finalize_datagrams
  finalize-Counts = elim (Bool-cases (l.nominal.counter == 0)) [
    | inl none_ ↦ rw none_ c
    | inr some_ ↦ rw some_ send_frame-Counts
  ]

  finalize-window :
      ((finalize_datagrams net l w).0.index_queue ≡ l.index_queue)
      × ((finalize_datagrams net l w).0.index_head ≡ l.index_head)
  unfolding finalize_datagrams send_frame
  finalize-window = ground arith

  -- A call of processDatagrams, for a datagram in flight with the index `j`, and a count of the
  -- client that only the error callback of that datagram raises, by one: whatever the sockets take
  -- and bring, the count stays as it is when the datagram ends with the status OK, and is one more
  -- when it ends with another status. So each datagram in flight is answered, or its error callback
  -- is called exactly once. After the call none is in flight.
  pub answered_or_reported :
      (s : S)
      → l.index_queue < 256
      → j < 256
      → sub8 j l.index_queue < in_flight l
      → let p = process_datagrams net l w s in
        (count p.client ≡ count s + (if is_ok (p.link.callbacks j).status then 0 else 1))
        × (in_flight p.link ≡ 0)
  unfolding process_datagrams
  answered_or_reported s hq hj inside =
      let f = finalize_datagrams net l w in
      let start : Round S = record {
        link = record f.0 { sent_frame = 0 };
        client = s;
        irq = 0;
        is_stale_frame = false;
        is_dropped = false;
      } in
      let counts = finalize-Counts in
      let window = finalize-window in
      let run = rounds net f.0.sent_frame f.0.sent_frame start f.1 in
      let r =
        rounds_keeps (Running-Rule count j (count s) l.index_queue l.index_head) net f.0.sent_frame
          f.0.sent_frame start f.1
          (record {
            counts = record {
              error_counts = counts.error_counts;
              error_other = counts.error_other;
              process_same = counts.process_same;
              events_same = counts.events_same;
            };
            no_more = refl;
            queue_is = window.0;
            head_is = window.1;
          }) in
      let d = conclude-count count j run.0 run.1 r.counts hj (omega (arith, r.queue_is)) in
      ground (arith, d, r.no_more, r.queue_is, r.head_is)
