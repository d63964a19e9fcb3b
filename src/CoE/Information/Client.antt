-- ===== src/CoE/Information/Client.antt =====
-- The master's request, kickcat::mailbox::request::SDOInformationMessage of
-- lib/src/CoE/mailbox/request.cc. `memory` is what stands from the caller's data pointer on.
use kick_cat.Base.{
  ℕ, ◌+◌, ◌-◌, ◌≤◌, ◌≡◌, ◌∙◌, refl, arith, false, not, ltb, leb, Bool, ◌<◌, ◌⊎◌, ◌==◌, ◌||◌,
  if◌then◌else◌, List, [], ◌∷◌, ◌%◌,
}
use kick_cat.Base.Lists.{take, drop, blit, replicate, drop-blit, length-take}
use kick_cat.Base.Bytes.{get32, word16, word32, sub32}
use kick_cat.CoE.Message.{
  ProcessingResult, type_coe, is_gateway, sdo_information, success, running, wrong_service,
  unknown_service, client_buffer_too_small, noop, finalize, finalize_and_keep,
}
use kick_cat.CoE.Information.{
  InfoMessage, get_od_list_req, get_od_list_resp, get_od_req, get_od_resp, get_ed_req, get_ed_resp,
  sdo_info_error_req,
}

pub record InfoClient : Type 0 where
  pub message : InfoMessage
  pub memory : List ℕ
  pub offset : ℕ
  pub size : ℕ
  pub received : ℕ
  pub status : ℕ

abbrev pub general_abort : ℕ
general_abort = 0x08000000

-- The constructor; the payload of the request stands at the start of the caller's data.
unfoldable pub create_info :
    (mailbox_size request : ℕ) → List ℕ → (size request_size : ℕ) → InfoClient
create_info mailbox_size request bytes size request_size = record {
  message = record {
    header = record {
      len = (6 + request_size) % word16;
      address = 0;
      channel = 0;
      priority = 0;
      mtype = type_coe;
      count = 0;
    };
    coe_header = record { number = 0; service = sdo_information };
    opcode = request % 128;
    incomplete = false;
    fragments_left = 0;
    body = blit 0 (take request_size bytes) (replicate (mailbox_size - 12) 0);
  };
  memory = bytes;
  offset = 0;
  size = size;
  received = 0;
  status = running;
}

abbrev pub stop : ℕ → InfoClient → ProcessingResult × InfoClient
stop code c = (finalize, record c { status = code })

-- Whether `n` bytes are more than what remains, which is the difference of two `uint32_t` read as an
-- `int32_t`.
abbrev pub exceeds : (size received n : ℕ) → Bool
exceeds size received n =
    let remaining = sub32 size received in leb 2147483648 remaining || ltb remaining n

-- A fragment of `n` bytes: copied if it fits, counted in any case.
abbrev pub take_fragment : InfoMessage → ℕ → InfoClient → InfoClient
take_fragment r n c =
    if exceeds c.size c.received n
    then record c { status = client_buffer_too_small; received = (c.received + n) % word32 }
    else record c {
      memory = blit c.offset (take n r.body) c.memory;
      offset = c.offset + n;
      received = (c.received + n) % word32;
    }

abbrev pub conclude : InfoClient → InfoClient
conclude c = if c.status == running then record c { status = success; size = c.received } else c

unfoldable pub process_response : InfoMessage → ℕ → InfoClient → ProcessingResult × InfoClient
process_response r expected c =
    if not (r.opcode == expected)
    then stop wrong_service c
    else if ltb r.header.len 6
    then stop general_abort c
    else if ltb 0 r.fragments_left
    then (finalize_and_keep, take_fragment r (r.header.len - 6) c)
    else (finalize, conclude (take_fragment r (r.header.len - 6) c))

unfoldable pub process_info : InfoMessage → InfoClient → ProcessingResult × InfoClient
process_info r c =
    if is_gateway r.header
      || not (r.header.mtype == type_coe)
      || not (r.coe_header.service == sdo_information)
    then (noop, c)
    else if r.opcode == sdo_info_error_req
    then stop (get32 r.body) c
    else if c.message.opcode == get_od_list_req
    then process_response r get_od_list_resp c
    else if c.message.opcode == get_od_req
    then process_response r get_od_resp c
    else if c.message.opcode == get_ed_req
    then process_response r get_ed_resp c
    else stop unknown_service c

-- The copies end within the first `n` bytes, and with `b` more bytes the count stays below 2 ^ 31.
abbrev InfoFits : (n b : ℕ) → InfoClient → Type 0
InfoFits n b c = (c.size ≤ n) × (c.offset ≤ c.received) × (c.received + b < 2147483648)

-- Below 2 ^ 31 the difference is what remains, or it is negative.
remaining_of :
    (a b : ℕ)
    → a < 2147483648
    → b < 2147483648
    → ((b ≤ a) × (sub32 a b ≡ a - b)) ⊎ ((a < b) × (2147483648 ≤ sub32 a b))
unfolding sub32
remaining_of a b h k = ground arith

process_response-Fits :
    (n b expected : ℕ) (r : InfoMessage) (c : InfoClient)
    → n < 2147483648
    → InfoFits n (r.header.len + b) c
    → InfoFits n b (process_response r expected c).1
      × (drop n (process_response r expected c).1.memory ≡ drop n c.memory)
unfolding process_response
process_response-Fits n b expected r c small h = ground (
  arith,
  remaining_of c.size c.received (omega (arith, h, small)) (omega (arith, h)),
  drop-blit c.offset n (take (r.header.len - 6) r.body) c.memory,
  length-take (r.header.len - 6) r.body,
)

process_info-Fits :
    (n b : ℕ) (r : InfoMessage) (c : InfoClient)
    → n < 2147483648
    → InfoFits n (r.header.len + b) c
    → InfoFits n b (process_info r c).1 × (drop n (process_info r c).1.memory ≡ drop n c.memory)
unfolding process_info
process_info-Fits n b r c small h = ground (
  arith,
  process_response-Fits n b get_od_list_resp r c small,
  process_response-Fits n b get_od_resp r c small,
  process_response-Fits n b get_ed_resp r c small,
)

-- A request that is given one reply after the other.
abbrev pub process_infos : List InfoMessage → InfoClient → InfoClient
process_infos [] c = c
process_infos (r ∷ rs) c = process_infos rs (process_info r c).1

-- The bytes that the headers of the replies announce.
abbrev pub announced : List InfoMessage → ℕ
announced [] = 0
announced (r ∷ rs) = r.header.len + announced rs

process_infos-Fits :
    (n : ℕ) (rs : List InfoMessage) (c : InfoClient)
    → n < 2147483648
    → InfoFits n (announced rs) c
    → drop n (process_infos rs c).memory ≡ drop n c.memory
process_infos-Fits n [] c small h = refl
process_infos-Fits n (r ∷ rs) c small h =
    let (fits, same) = process_info-Fits n (announced rs) r c small h in
    process_infos-Fits n rs (process_info r c).1 small fits ∙ same

-- Whatever fragments the slave sends, an information request writes no byte behind the caller's
-- buffer, if the buffer has less than 2 ^ 31 bytes and the headers of all the fragments announce less
-- than 2 ^ 31 bytes.
pub info_no_overrun :
    (mailbox_size request : ℕ) (bytes : List ℕ) (size request_size : ℕ) (rs : List InfoMessage)
    → size < 2147483648
    → announced rs < 2147483648
    → drop size (process_infos rs (create_info mailbox_size request bytes size request_size)).memory
      ≡ drop size bytes
unfolding create_info
info_no_overrun mailbox_size request bytes size request_size rs small few =
    process_infos-Fits size rs (create_info mailbox_size request bytes size request_size) small
      (omega arith, omega arith, omega arith)
