-- ===== src/CoE/Information/Server.antt =====
-- The slave's answers, kickcat::mailbox::response::SDOInformationMessage of
-- lib/src/CoE/mailbox/response.cc. `replies` is what the message queues. The
-- first entry of an object is read with at(0), which throws when there is none; here such an object
-- has no access.
use kick_cat.Base.{
  ℕ, zero, suc, ◌+◌, ◌-◌, ◌*◌, ◌/◌, ◌%◌, true, false, leb, ◌==◌, if◌then◌else◌, List, [], ◌∷◌, ◌++◌,
}
use kick_cat.Base.Lists.{length, take, blit, get_or}
use kick_cat.Base.Bytes.{word16, put16, get16, put32}
use kick_cat.CoE.Message.{ProcessingResult, finalize}
use kick_cat.CoE.Dictionary.{Entry, Object, Dictionary, has_access, find_object, found}
use kick_cat.CoE.Information.{
  InfoMessage, info_size, get_od_list_req, get_od_list_resp, get_od_req, get_od_resp, get_ed_req,
  get_ed_resp, sdo_info_error_req,
}
use kick_cat.Mailbox.{next_counter}

pub record InfoServer : Type 0 where
  pub dictionary : Dictionary
  pub replies : List InfoMessage
  pub message : InfoMessage

abbrev pub reply_info : InfoMessage → InfoServer → InfoServer
reply_info m s = record s { replies = s.replies ++ (m ∷ []) }

-- SDOInformationMessage::abort
abbrev pub abort_info : ℕ → InfoServer → ProcessingResult × InfoServer
abort_info code s = (
  finalize,
  reply_info
      (record (s.message) {
        opcode = sdo_info_error_req;
        incomplete = false;
        fragments_left = 0;
        body = blit 0 (put32 code) s.message.body;
      })
      s,
)

abbrev pub first_access : Object → ℕ
first_access o = elim o.entries [ [] ↦ 0 | e ∷ es ↦ e.access ]

-- The indices of the objects with the access, in the order of the dictionary.
unfoldable pub matching : ℕ → Dictionary → List ℕ
matching mask [] = []
matching mask (o ∷ os) =
    let rest = matching mask os in if has_access (first_access o) mask then o.index ∷ rest else rest

unfoldable pub count_matching : ℕ → Dictionary → ℕ
count_matching mask [] = 0
count_matching mask (o ∷ os) =
    let rest = count_matching mask os in
    if has_access (first_access o) mask then (rest + 1) % word16 else rest

-- The fragments that the code asks for: the size of the list over the size of the mailbox.
unfoldable pub required_fragments : ℕ → ℕ → ℕ
required_fragments mailbox words =
    let total = words * 2 in
    (if total % mailbox == 0 then total / mailbox else total / mailbox + 1) % word16

-- The `while` over one fragment: the words that go into it, those that are left, and its length.
unfoldable pub fill : ℕ → ℕ → List ℕ → List ℕ × List ℕ × ℕ
fill limit len [] = ([], [], len)
fill limit len (w ∷ ws) =
    let rest = fill limit (len + 2) ws in
    if leb (len + 2) limit then (w ∷ rest.0, rest.1, rest.2) else ([], w ∷ ws, len)

abbrev pub bytes_of : List ℕ → List ℕ
bytes_of [] = []
bytes_of (w ∷ ws) = put16 w ++ bytes_of ws

abbrev pub fragment : InfoMessage → ℕ → List ℕ → ℕ → InfoMessage
fragment m left words len = record m {
  header = record (m.header) { len = len };
  fragments_left = left;
  incomplete = if left == 0 then m.incomplete else true;
  body = blit 0 (bytes_of words) m.body;
}

abbrev pub count_up : InfoMessage → InfoMessage
count_up m = record m { header = record (m.header) { count = next_counter m.header.count } }

-- The replies of the `for`: one for each fragment.
unfoldable pub fragments : ℕ → InfoMessage → List ℕ → List InfoMessage
fragments zero m words = []
fragments (suc left) m words =
    let (now, later, len) = fill (info_size m - 6) m.header.len words in
    fragment m left now len ∷ fragments left (count_up m) later

-- The list that is answered: its type, then the indices.
abbrev pub listed : ℕ → ℕ → Dictionary → List ℕ
listed list_type mask dict = list_type ∷ matching mask dict

abbrev pub fill_list : ℕ → ℕ → InfoServer → InfoServer
fill_list list_type mask s =
    let words = listed list_type mask s.dictionary in
    record s {
      replies =
          s.replies
          ++ fragments (required_fragments (info_size s.message) (length words)) s.message words;
    }

-- ListType and the access that each checks; the number of objects of each kind has its own answer.
abbrev pub numbers : Dictionary → List ℕ
numbers dict =
    put16 (length dict % word16)
    ++ put16 (count_matching 0x40 dict)
    ++ put16 (count_matching 0x80 dict)
    ++ put16 (count_matching 0x100 dict)
    ++ put16 (count_matching 0x200 dict)

abbrev pub reply_numbers : InfoServer → InfoServer
reply_numbers s =
    reply_info
      (record (s.message) {
        header = record (s.message.header) { len = (s.message.header.len + 12) % word16 };
        body = blit 2 (numbers s.dictionary) s.message.body;
      })
      s

abbrev pub answer_with : ℕ → InfoServer → InfoServer
answer_with opcode s = record s {
  message = record (s.message) { header = record (s.message.header) { len = 6 }; opcode = opcode };
}

unfoldable pub process_od_list : InfoServer → ProcessingResult × InfoServer
unfolding matching count_matching required_fragments fragments
process_od_list s0 =
    let s = answer_with get_od_list_resp s0 in
    let list_type = get16 s.message.body in
    (
      finalize,
      if list_type == 0
          then reply_numbers s
          else if list_type == 1
          then fill_list 1 0x3ff s
          else if list_type == 2
          then fill_list 2 0x40 s
          else if list_type == 3
          then fill_list 3 0x80 s
          else if list_type == 4
          then fill_list 4 0x100 s
          else if list_type == 5
          then fill_list 5 0x200 s
          else s,
    )

-- The text behind a description of `size` bytes, as much as the mailbox has room for.
abbrev pub fitting : ℕ → List ℕ → InfoMessage → List ℕ
fitting size text m = take (length m.body - size) text

-- A description and its text, with the length that the header announces.
abbrev pub describe : List ℕ → ℕ → List ℕ → InfoMessage → InfoMessage
describe description size text m = record m {
  header = record (m.header) {
    len = (m.header.len + size + length (fitting size text m)) % word16;
  };
  body = blit size (fitting size text m) (blit 0 description m.body);
}

abbrev pub last_subindex : List Entry → ℕ
last_subindex [] = 0
last_subindex (e ∷ []) = e.subindex
last_subindex (e ∷ f ∷ es) = last_subindex (f ∷ es)

abbrev pub object_description : Object → Entry → InfoMessage → List ℕ
object_description o e m = take 2 m.body ++ put16 e.dtype ++ (last_subindex o.entries ∷ o.code ∷ [])

unfoldable pub process_od : InfoServer → ProcessingResult × InfoServer
process_od s0 =
    let s = answer_with get_od_resp s0 in
    elim (find_object s.dictionary (get16 s.message.body) 0) [
      | found p o e ↦
          (finalize, reply_info (describe (object_description o e s.message) 6 o.name s.message) s)
      | _ ↦ abort_info 0x06020000 s
    ]

abbrev pub entry_description : Entry → InfoMessage → List ℕ
entry_description e m =
    take 3 m.body ++ (0 ∷ []) ++ put16 e.dtype ++ put16 e.bitlen ++ put16 e.access

unfoldable pub process_ed : InfoServer → ProcessingResult × InfoServer
process_ed s0 =
    let s = answer_with get_ed_resp s0 in
    elim (find_object s.dictionary (get16 s.message.body) (get_or s.message.body 2 0)) [
      | found p o e ↦ (
        finalize,
        reply_info (describe (entry_description e s.message) 10 e.description s.message) s,
      )
      | _ ↦ abort_info 0x06090011 s
    ]

-- SDOInformationMessage::process
unfoldable pub process_information : InfoServer → ProcessingResult × InfoServer
process_information s =
    if s.message.opcode == get_od_list_req
    then process_od_list s
    else if s.message.opcode == get_od_req
    then process_od s
    else if s.message.opcode == get_ed_req
    then process_ed s
    else abort_info 0x05040001 s
