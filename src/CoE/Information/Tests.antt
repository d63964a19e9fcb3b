-- ===== src/CoE/Information/Tests.antt =====
-- Runs of the SDO information service at concrete inputs (lib/src/CoE/mailbox/request.cc and
-- lib/src/CoE/mailbox/response.cc).
use kick_cat.Base.{ℕ, ◌<◌, ◌≡◌, refl, arith, false, List, [], ◌∷◌}
use kick_cat.Base.Lists.{length, take, drop, replicate}
use kick_cat.CoE.Message.{type_coe, sdo_information}
use kick_cat.CoE.Information.{InfoMessage, get_od_list_req, get_od_list_resp}
use kick_cat.CoE.Information.Client.{create_info, process_infos, info_no_overrun}
use kick_cat.CoE.Information.Server.{fragments, required_fragments}
use kick_cat.CoE.Information.Listing.{carried, od_list_sent, od_list_loses}

-- A list answer in a mailbox of 20 bytes, and six words for it.
abbrev list_message : InfoMessage
list_message = record {
  header = record { len = 6; address = 0; channel = 0; priority = 0; mtype = type_coe; count = 1 };
  coe_header = record { number = 0; service = sdo_information };
  opcode = get_od_list_resp;
  incomplete = false;
  fragments_left = 0;
  body = replicate 8 0;
}

abbrev six_words : List ℕ
six_words = 1 ∷ 0x1000 ∷ 0x1008 ∷ 0x1009 ∷ 0x1018 ∷ 0x1c00 ∷ []

-- Four words fill one fragment of a mailbox of 20 bytes.
od_list_sent_example :
    (length (fragments (required_fragments 20 4) list_message (take 4 six_words)) ≡ 1)
    × (carried (fragments (required_fragments 20 4) list_message (take 4 six_words))
        ≡ take 4 six_words)
od_list_sent_example =
    od_list_sent list_message (take 4 six_words) 0 refl
      (omega arith, (omega arith, (omega arith, (omega arith, tt)))) (omega arith) (omega arith)
      (omega arith) (omega arith)

od_list_loses_example :
    length (carried (fragments (required_fragments 20 6) list_message six_words)) < 6
od_list_loses_example = od_list_loses list_message six_words refl (omega arith) (omega arith)

info_no_overrun_example :
    drop 4
      (process_infos
        (list_message ∷ [])
        (create_info 20 get_od_list_req (replicate 6 7) 4 2)).memory
    ≡ drop 4 (replicate 6 7)
info_no_overrun_example =
    info_no_overrun 20 get_od_list_req (replicate 6 7) 4 2 (list_message ∷ []) (omega arith)
      (omega arith)
