-- ===== src/CoE/Information/Describe.antt =====
-- A description and its text in the mailbox: SDOInformationMessage::processOD and
-- SDOInformationMessage::processED of lib/src/CoE/mailbox/response.cc.
use kick_cat.Base.{ℕ, ◌+◌, ◌-◌, ◌≤◌, ◌<◌, ◌≡◌, ◌∙◌, ap, arith, List}
use kick_cat.Base.Lists.{
  length, take, drop, blit, length-take, length-blit, length-drop, drop-blit_start, take-blit_end,
}
use kick_cat.Base.Bytes.{word16}
use kick_cat.CoE.Information.{InfoMessage, info_size}
use kick_cat.CoE.Information.Server.{describe, fitting}

-- The reply to a description request, in a mailbox that has room for the description itself: the
-- length that it announces ends within the mailbox, and behind the description stands as much of the
-- text as there is room for.
pub describe_fits :
    (description text : List ℕ) (size : ℕ) (m : InfoMessage)
    → m.header.len ≡ 6
    → size ≤ length m.body
    → info_size m < word16
    → (6 + (describe description size text m).header.len ≤ info_size m)
      × (take (length (fitting size text m)) (drop size (describe description size text m).body)
          ≡ take (length m.body - size) text)
describe_fits description text size m h fit small =
    let shown : length (fitting size text m) ≤ length m.body - size =
      omega (arith, length-take (length m.body - size) text) in
    let room : length (fitting size text m) ≤ length (drop size (blit 0 description m.body)) =
      omega (
        arith,
        shown,
        length-drop size (blit 0 description m.body),
        length-blit 0 description m.body,
      ) in
    (
      omega (arith, shown),
      ap (take (length (fitting size text m)))
            (drop-blit_start size (fitting size text m) (blit 0 description m.body))
          ∙ take-blit_end 0 (length (fitting size text m)) (fitting size text m)
              (drop size (blit 0 description m.body)) (omega arith) room,
    )
