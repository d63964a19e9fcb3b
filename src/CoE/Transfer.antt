-- ===== src/CoE/Transfer.antt =====
-- The master's request and the slave's server together: each segment request that the client has
-- ready goes to SDOMessage::process (raw_message) of lib/src/CoE/mailbox/response.cc, and the reply to
-- SDOMessage::process of lib/src/CoE/mailbox/request.cc.
pub mod Upload
pub mod Download
use kick_cat.Base.{ℕ, zero, suc, List, [], ◌∷◌}
use kick_cat.CoE.Message.{ProcessingResult, noop, continue, finalize, finalize_and_keep}
use kick_cat.CoE.Client
use kick_cat.CoE.Client.{Client}
use kick_cat.CoE.Server.{Server, Reply, sdo_reply, error_reply, serve}
use kick_cat.CoE.Server.Segments.{process_raw}
use kick_cat.CoE.Server.Dispatch.{process}
use kick_cat.CoE.Dictionary.{Dictionary}

-- The reply at the front of the queue goes to the client.
abbrev pub deliver : Client → Server → ProcessingResult × Client × Server
deliver c s = elim s.replies [
  | [] ↦ (noop, c, s)
  | error_reply code ∷ rs ↦ (noop, c, record s { replies = rs })
  | sdo_reply m ∷ rs ↦
      let (result, c') = Client.process m c in (result, c', record s { replies = rs })
]

abbrev pub exchange : Client → Server → ProcessingResult × Client × Server
exchange c s = deliver c (process_raw c.message s).1

-- Segments are exchanged, `n` at most, for as long as the client has another request.
unfoldable pub transfer : ℕ → Client → Server → ProcessingResult × Client × Server
transfer zero c s = (noop, c, s)
transfer (suc n) c s =
    let rest = transfer n (exchange c s).1 (exchange c s).2 in
    elim (exchange c s).0 [ continue ↦ rest | _ ↦ exchange c s ]

-- The initiate request, to a server with no transfer in progress.
abbrev pub initiate : Client → Dictionary → ProcessingResult × Client × Server
initiate c dict = deliver c (process (serve dict [] c.message)).1

-- The initiate request, and the segments if there are any.
unfoldable pub session : ℕ → Client → Dictionary → ProcessingResult × Client × Server
session n c dict =
    let rest = transfer n (initiate c dict).1 (initiate c dict).2 in
    elim (initiate c dict).0 [ continue ↦ rest | _ ↦ initiate c dict ]
