-- ===== src/Link/Window.antt =====
-- The window of the datagrams in flight, and the room in the frame that is being filled.
use kick_cat.Base.{
  ℕ, ◌+◌, ◌%◌, ◌≤◌, ◌<◌, ◌≡◌, ◌≢◌, refl, ap, ◌∙◌, Bool, ◌==◌, if◌then◌else◌, List, Option, none,
  some, arith, ◌⊎◌, inl, inr, Bool-cases,
}
use kick_cat.Frame
use kick_cat.Frame.{
  Frame, Datagram, free_space, add_datagram, finalize, reset_context, set_source_mac, set_len,
}
use kick_cat.Link.{
  DatagramState, Link, Sockets, add, enqueue, send_frame, make_room, in_flight, sub8, primary_mac,
  secondary_mac,
}

pub record IsValid {S : Type 0} (l : Link S) : Type 0 where
  pub queue_fits : l.index_queue < 256
  pub head_fits : l.index_head < 256
  pub room : l.nominal.next ≤ 1498
  pub few : l.nominal.counter < 15
  pub starts : l.nominal.counter ≡ 0 → l.nominal.next ≡ 0
  pub counted : l.sent_frame + l.nominal.counter ≤ in_flight l

-- What `finalize` and what follows it leave of the context of a frame.
finalize-context : (f : Frame) → ((finalize f).1.next ≡ 0) × ((finalize f).1.counter ≡ 0)
unfolding finalize reset_context
finalize-context f = ground arith

clear-context :
    (mac mac' : List ℕ) (f : Frame)
    → let g = Frame.clear (set_source_mac mac (set_source_mac mac' f)) in
      (g.next ≡ f.next) × (g.counter ≡ f.counter)
unfolding Frame.clear set_len set_source_mac
clear-context mac mac' f = (refl, refl)

add_datagram-context :
    (i command address n : ℕ) (source : Option (List ℕ)) (f : Frame)
    → let g = add_datagram i command address source n f in
      (g.next ≡ f.next + 10 + n + 2) × (g.counter ≡ f.counter + 1)
unfolding add_datagram
add_datagram-context i command address n source f = (refl, refl)

module _ {S W : Type 0} (net : Sockets W) where
  -- A frame with datagrams that is sent leaves an empty one.
  send_frame-IsValid :
      (l : Link S) (w : W)
      → l.index_queue < 256
      → l.index_head < 256
      → l.sent_frame + l.nominal.counter ≤ in_flight l
      → l.nominal.counter ≢ 0
      → let l' = (send_frame net l w).0 in
        IsValid l'
        × (l'.index_head ≡ l.index_head)
        × (l'.index_queue ≡ l.index_queue)
        × (l'.nominal.next ≡ 0)
        × (l'.nominal.counter ≡ 0)
  unfolding send_frame
  send_frame-IsValid l w q h c some_datagrams =
      let f = (finalize l.nominal).1 in
      ground (arith, finalize-context l.nominal, clear-context secondary_mac primary_mac f)

  -- Before a datagram of at most 1486 bytes is written, its frame has the room for it and holds
  -- fewer than 15 datagrams.
  make_room-IsValid :
      (n : ℕ) (l : Link S) (w : W)
      → n ≤ 1486
      → IsValid l
      → let l' = (make_room net n l w).0 in
        IsValid l'
        × (l'.index_head ≡ l.index_head)
        × (l'.index_queue ≡ l.index_queue)
        × (l'.nominal.next + 12 + n ≤ 1498)
  unfolding make_room free_space
  make_room-IsValid n l w small v =
      ground (arith, send_frame-IsValid l w v.queue_fits v.head_fits v.counted)

  module _ (command address n : ℕ) (source : Option (List ℕ))
      (process : Datagram → S → DatagramState × S) (error : DatagramState → S → Bool × S) where
    abbrev put : Link S → Link S
    put l = enqueue net command address source n process error l

    put-context :
        (l : Link S)
        → let l' = put l in
          (l'.nominal.next ≡ l.nominal.next + 10 + n + 2)
          × (l'.nominal.counter ≡ l.nominal.counter + 1)
          × (l'.index_head ≡ (l.index_head + 1) % 256)
          × (l'.index_queue ≡ l.index_queue)
          × (l'.sent_frame ≡ l.sent_frame)
    unfolding enqueue
    put-context l =
        let c = add_datagram-context l.index_head command address n source l.nominal in
        (c.0, c.1, refl, refl, refl)

    abbrev flush : Link S → W → Link S × W
    flush l w = if Frame.is_full l.nominal then send_frame net l w else (l, w)

    flush-IsValid :
        (l : Link S) (w : W)
        → IsValid l
        → in_flight l < 255
        → l.nominal.next + 12 + n ≤ 1498
        → let l' = (flush (put l) w).0 in
          IsValid l' × (in_flight l' ≡ in_flight l + 1) × (l'.index_queue ≡ l.index_queue)
    unfolding Frame.is_full free_space
    flush-IsValid l w v free fits =
        let p = put-context l in
        ground (arith, p, send_frame-IsValid (put l) w, v.queue_fits, v.head_fits, v.counted, v.few)

    -- For data of at most 1486 bytes, which fit in an empty frame, and a valid link: addDatagram
    -- throws exactly when 255 datagrams are in flight. Otherwise one more is, the frame that it leaves has at most 14 datagrams in 1498 bytes, and no more frames have been
    -- sent than there are datagrams in flight, so that the eight bits of their number suffice.
    pub add-IsValid :
        (l : Link S) (w : W)
        → n ≤ 1486
        → IsValid l
        → (in_flight l ≡ 255) × (add net command address source n process error l w ≡ none)
          ⊎ ((l' : Link S) × (w' : W) × (add net command address source n process error l w
                ≡ some (l', w'))
              × IsValid l'
              × (in_flight l' ≡ in_flight l + 1)
              × (l'.index_queue ≡ l.index_queue))
    unfolding add
    add-IsValid l w small v = elim (Bool-cases (l.index_queue == (l.index_head + 1) % 256)) [
      | inl full ↦ inl (ground (arith, v.queue_fits, v.head_fits), rw full refl)
      | inr free ↦
          let m = make_room net n l w in
          let r = make_room-IsValid n l w small v in
          let few : in_flight m.0 < 255 = ground (arith, v.queue_fits, v.head_fits) in
          let f = flush-IsValid m.0 m.1 r.0 few r.3 in
          inr (
            (flush (put m.0) m.1).0,
            (flush (put m.0) m.1).1,
            rw free refl,
            f.0,
            omega (
              arith,
              f.1,
              ap (λ (h : ℕ). sub8 h l.index_queue) r.1,
              ap (λ (q : ℕ). sub8 m.0.index_head q) r.2,
            ),
            f.2 ∙ r.2,
          )
    ]
