-- ===== src/Link/Tests.antt =====
-- A link over sockets that are not connected, and the witnesses of the theorems.
use kick_cat.Base.{
  ℕ, zero, suc, ◌+◌, ◌≤◌, ◌≡◌, refl, inl, ◌⊎◌, ◌*◌, bit_or, true, false, ◌==◌, ltb, ◌%◌, ◌<◌,
  if◌then◌else◌, List, [], ◌∷◌, none, some, arith,
}
use kick_cat.Base.Lists.{replicate, get_or}
use kick_cat.Frame.{fresh}
use kick_cat.Frame.Socket.{failed, refused}
use kick_cat.Link.{
  Link, Sockets, Callbacks, Irq, in_flight, is_ok, is_stale, lost, ok, finalize_datagrams, add,
  sub8,
}
use kick_cat.Link.Process.{process_datagrams, rounds, Round}
use kick_cat.Link.Window.{IsValid, add-IsValid}
use kick_cat.Link.Budget.{process-reads, KeptByWaiting, rounds-callbacks}
use kick_cat.Link.Events.{Silent, check-Silent, check_all, rises, check_all-rises}
use kick_cat.Link.Merge.{LogicalFrameDescription, merge_split_lrw}
use kick_cat.Link.Split.{merge_split-bytes}
use kick_cat.Link.Answers.{Counts, answered_or_reported}

-- A cable that takes every frame and brings nothing back; the world counts the reads.
abbrev cut : Sockets ℕ
cut = record {
  write_nominal = λ bytes w. (refused 5, w);
  write_redundancy = λ bytes w. (refused 5, w);
  read_nominal = λ w. (failed 11, w);
  read_redundancy = λ w. (failed 11, w + 1);
}

-- The client counts the errors of index 0.
abbrev counting : ℕ → Callbacks ℕ
counting i = record {
  status = lost;
  process = λ d s. (ok, s);
  error = λ st s. (false, if i == 0 then s + 1 else s);
}

abbrev one_pending : Link ℕ
one_pending = record {
  index_queue = 0;
  index_head = 2;
  sent_frame = 1;
  callbacks = counting;
  logical_mapping = [];
  irqs = replicate 16 (record { callback = λ s. s; is_armed = true });
  nominal = fresh;
  redundancy = fresh;
}

Silent-replicate :
    (n : ℕ) → Silent {S = ℕ} (λ s. s) (replicate n (record { callback = λ s. s; is_armed = true }))
Silent-replicate zero = tt
Silent-replicate (suc n) = (λ s. refl, Silent-replicate n)

one_pending-Counts : Counts (λ s. s) 0 one_pending
one_pending-Counts = record {
  error_counts = λ st s. refl;
  error_other = λ i st s h. ground arith;
  process_same = λ i d s. refl;
  events_same = λ irq s. (check-Silent (λ s. s) irq one_pending.irqs s (Silent-replicate 16)).1;
}

answered_or_reported_example :
    let p = process_datagrams cut one_pending 0 5 in
    (p.client ≡ 5 + (if is_ok (p.link.callbacks 0).status then 0 else 1)) × (in_flight p.link ≡ 0)
answered_or_reported_example =
    answered_or_reported cut (λ s. s) 0 one_pending 0 one_pending-Counts 5 (omega arith)
      (omega arith) (omega arith)

process-reads_example :
    let f = finalize_datagrams cut one_pending 0 in
    let after = (process_datagrams cut one_pending 0 5).world in
    (f.1 + f.0.sent_frame ≤ after) × (after ≤ f.1 + 2 * f.0.sent_frame)
process-reads_example = process-reads cut (λ w. w) (λ w. refl) (λ w. refl) one_pending 0 5

-- The callbacks of the two datagrams in flight count up; the others would clear the counter.
abbrev AboveFour : ℕ → Type 0
AboveFour c = 4 < c

abbrev clearing : Link ℕ
clearing = record one_pending {
  callbacks = λ i. record {
    status = lost;
    process = λ d s. (ok, if ltb (i % 256) 2 then s + 1 else 0);
    error = λ st s. (false, s);
  };
}

waiting_counts : KeptByWaiting clearing AboveFour
unfolding is_stale sub8
waiting_counts i d s fresh open_ q = ground arith

rounds-callbacks_example :
    let r : Round ℕ = record {
      link = clearing;
      client = 5;
      irq = 0;
      is_stale_frame = false;
      is_dropped = false;
    } in
    let r' = (rounds cut 1 1 r 0).0 in
    AboveFour r'.client
    × (r'.link.callbacks 9 ≡ clearing.callbacks 9)
    × (r'.link.index_queue ≡ clearing.index_queue)
    × (r'.link.index_head ≡ clearing.index_head)
rounds-callbacks_example =
    rounds-callbacks clearing AboveFour cut 1 1 0 false false 0 5 waiting_counts (omega arith) 9
      (inl (unfold is_stale in refl))

idle : Link ℕ
idle = record one_pending { index_head = 0; sent_frame = 0 }

idle-IsValid : IsValid idle
unfolding idle fresh
idle-IsValid = record {
  queue_fits = omega arith;
  head_fits = omega arith;
  room = omega arith;
  few = omega arith;
  starts = λ h. refl;
  counted = omega arith;
}

add-IsValid_example :
    (in_flight idle ≡ 255)
      × (add cut 7 0 none 2 (λ d s. (ok, s)) (λ st s. (false, s)) idle 0 ≡ none)
    ⊎ ((l' : Link ℕ) × (w' : ℕ) × (add cut 7 0 none 2 (λ d s. (ok, s)) (λ st s. (false, s)) idle 0
          ≡ some (l', w'))
        × IsValid l'
        × (in_flight l' ≡ in_flight idle + 1)
        × (l'.index_queue ≡ idle.index_queue))
add-IsValid_example =
    add-IsValid cut 7 0 2 none (λ d s. (ok, s)) (λ st s. (false, s)) idle 0 (omega arith)
      idle-IsValid

-- Three events; the second one counts. Its bit rises twice in these words.
abbrev three : List (Irq ℕ)
three =
    record { callback = λ s. s; is_armed = true }
    ∷ record { callback = λ s. s + 1; is_armed = true }
    ∷ record { callback = λ s. s; is_armed = false }
    ∷ []

check_all-rises_example :
    (check_all (2 ∷ 3 ∷ 5 ∷ 2 ∷ []) three 0).1 ≡ 0 + rises false 1 (2 ∷ 3 ∷ 5 ∷ 2 ∷ [])
check_all-rises_example =
    check_all-rises (λ s. s) 1 false (2 ∷ 3 ∷ 5 ∷ 2 ∷ []) three 0
      (λ s. refl, (refl, λ s. refl, (λ s. refl, tt)))

-- Two slaves with one byte of inputs each, then a byte of status bits.
abbrev mapping : LogicalFrameDescription
mapping = record {
  address = 0;
  logical_size = 3;
  pdo_size = 2;
  entries =
      record { contribution = 3; input_offset = some 0; input_size = 1 }
      ∷ record { contribution = 3; input_offset = some 1; input_size = 1 }
      ∷ [];
}

merge_split-bytes_example :
    get_or (merge_split_lrw mapping (1 ∷ 2 ∷ 4 ∷ []) (7 ∷ 8 ∷ 1 ∷ []) 3 3) 2 0 ≡ bit_or 4 1
merge_split-bytes_example =
    merge_split-bytes mapping
      (record { contribution = 3; input_offset = some 0; input_size = 1 } ∷ [])
      (record { contribution = 3; input_offset = some 1; input_size = 1 } ∷ []) (1 ∷ 2 ∷ 4 ∷ [])
      (7 ∷ 8 ∷ 1 ∷ []) 3 2 refl ((omega arith, omega arith), tt) (omega arith) (omega arith)
      (omega arith) (omega arith) refl refl (omega arith)
