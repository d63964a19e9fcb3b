-- ===== src/Mailbox/Tests.antt =====
-- Runs of the mailbox queues at concrete inputs (lib/src/Mailbox.cc).
use kick_cat.Base.{
  ℕ, ◌+◌, ◌≤◌, ◌≡◌, ◌≢◌, refl, arith, true, false, [], ◌∷◌, none, some, ◌⊎◌, ◌∙◌, sym,
}
use kick_cat.Base.Lists.{length, replicate}
use kick_cat.CoE.Message.{Message, type_coe, sdo_response, upload, upload_response, noop, finalize}
use kick_cat.CoE.Client
use kick_cat.CoE.Client.{Client, create, place, status_at}
use kick_cat.CoE.Client.Interface.{sdo_message}
use kick_cat.Mailbox.Request
use kick_cat.Mailbox.Request.{expire, receive, enqueue}
use kick_cat.Mailbox.Request.Order.{settle, receive_first, Waiting, in_time, nothing}
use kick_cat.Mailbox.Response.{
  ServerOps, Mailbox, handle_message, SmView, send, reset_irq, empty_sm, write_message, ack_repeat,
}
use kick_cat.Mailbox.Response.Repeat.{handle_message-le, repeat_resends, sends, send-Queue}

-- Uploads of two objects wait; the reply is about the second.
abbrev asking : ℕ → Client
asking index = create 20 index 0 false upload (replicate 8 0) 8 0 0

abbrev waiting : Request.Mailbox Client
waiting = record {
  recv_size = 20;
  counter = 2;
  to_send = [];
  to_process = asking 0x1000 ∷ asking 0x1008 ∷ [];
}

abbrev answer : Message
answer = record {
  header = record { len = 10; address = 0; channel = 0; priority = 0; mtype = type_coe; count = 2 };
  coe_header = record { number = 0; service = sdo_response };
  sdo = record {
    size_indicator = true;
    transfer_type = 1;
    block_size = 0;
    complete_access = false;
    command = upload_response;
  };
  body = 8 ∷ 16 ∷ 0 ∷ 1 ∷ 2 ∷ 3 ∷ 4 ∷ 0 ∷ 0 ∷ 0 ∷ 0 ∷ [];
}

asking_waits : Waiting sdo_message 0 waiting.to_process (asking 0x1000 ∷ asking 0x1008 ∷ [])
unfolding status_at create
asking_waits = in_time (ground arith) (in_time (ground arith) nothing)

asking_passes : (Client.process answer (asking 0x1000)).0 ≡ noop
unfolding Client.process create place
asking_passes = refl

asking_takes : (Client.process answer (asking 0x1008)).0 ≡ finalize
unfolding Client.process Client.process_command Client.process_upload create place
asking_takes = refl

ended : finalize ≢ noop
ended = ground arith

receive_first_example :
    receive sdo_message answer 0 waiting
    ≡ settle sdo_message
        (Client.process answer (asking 0x1008)).0
        (Client.process answer (asking 0x1008)).1
        (asking 0x1000 ∷ [])
        []
        waiting
receive_first_example =
    receive_first sdo_message answer 0 waiting (asking 0x1000 ∷ []) [] (asking 0x1008) asking_waits
      (asking_passes, tt) (λ e. ended (sym asking_takes ∙ e))

-- A message that needs as many calls of process() as its number; one more request makes it longer.
abbrev countdown : ServerOps ℕ ℕ ℕ
countdown = record {
  process_raw = λ r m d. record { result = noop; message = m; dictionary = d; queued = [] };
  process = λ m d. record { result = finalize; message = m; dictionary = d + m; queued = m ∷ [] };
  factories = (λ r. some r) ∷ [];
  error_of = λ r code. code;
}

abbrev busy : Mailbox ℕ ℕ ℕ
busy = record {
  max_msgs = 2;
  dictionary = 0;
  to_process = 5 ∷ 6 ∷ [];
  to_send = 7 ∷ [];
  last_sent = some 4;
  repeat = none;
}

handle_message-le_example : length (handle_message countdown 9 busy).to_process ≤ 2
handle_message-le_example = handle_message-le countdown 9 busy (omega arith)

abbrev asks_again : SmView
asks_again = record {
  is_full = true;
  is_read = true;
  repeat_requested = true;
  repeat_acked = false;
  accepts = true;
}

-- The reply 7 is sent, then the mailbox is full, then the master asks for it again.
abbrev empty_view : SmView
empty_view = record asks_again { is_full = false; is_read = false; repeat_acked = true }

abbrev full_view : SmView
full_view = record asks_again { is_read = false; repeat_acked = true }

repeat_resends_example :
    let b' = sends (full_view ∷ []) (send empty_view busy).0 in
    ((send empty_view busy).1 ≡ write_message (some 7) ∷ [])
    × ((send asks_again b').1
        ≡ reset_irq ∷ empty_sm ∷ write_message (some 7) ∷ ack_repeat true ∷ [])
    × ((send asks_again b').0.to_send ≡ [])
repeat_resends_example =
    repeat_resends empty_view asks_again (full_view ∷ []) busy 7 [] refl refl refl refl
      ((refl, refl), tt) (ground arith) refl

send-Queue_example :
    ((send (record asks_again { is_full = false; repeat_acked = true }) busy).0.to_send ≡ 7 ∷ [])
    ⊎ ((r : ℕ) × (7 ∷ []
          ≡ r ∷ (send (record asks_again { is_full = false; repeat_acked = true }) busy).0.to_send)
        × ((send (record asks_again { is_full = false; repeat_acked = true }) busy).0.last_sent
            ≡ some r)
        × ((send (record asks_again { is_full = false; repeat_acked = true }) busy).1
            ≡ reset_irq ∷ write_message (some r) ∷ [])
        × (true ≡ true)
        × (false ≡ false)
        × (true ≡ true))
send-Queue_example = send-Queue (record asks_again { is_full = false; repeat_acked = true }) busy
