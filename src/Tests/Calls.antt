-- ===== src/Tests/Calls.antt =====
-- src/rpc.c on property lists that are trees.
use bootstrap_agency_templat.Prelude.{
  ℕ, ◌+◌, ◌≡◌, refl, ◌↔◌, Bool, true, false, Option, none, some, List, [], ◌∷◌, ◌++◌, arith,
  if◌then◌else◌, ==_refl,
}
use bootstrap_agency_templat.Libc.{codes, starts_with, strcmp_equal, strchr, strnstr}
use bootstrap_agency_templat.Rpc.{
  Plist, Callbacks, Page, Status, success, get_required_string, get_required_uint,
  get_required_data, ◌>>=◌,
}
use bootstrap_agency_templat.Rpc.Parse.{parse_pages}
use bootstrap_agency_templat.Rpc.Send.{send_msg, data_args}
use bootstrap_agency_templat.Rpc.Recv.{recv_msg, recv_plist}
use bootstrap_agency_templat.Rpc.Xml.{trim}
use bootstrap_agency_templat.Rpc.Pipe.{IsPlist, send_msg-recv_msg, data_args-reads}
use bootstrap_agency_templat.Rpc.Errors.{AllSucceed, recv_msg_error}
use bootstrap_agency_templat.Rpc.Pages.{Each, Describes, parse_pages-Each}
use bootstrap_agency_templat.Rpc.Trim.{trim_lem}

mutual
  data Node : Type 0 where
    text : List ℕ → Node
    flag : Bool → Node
    number : ℕ → Node
    blob : List ℕ → Node
    dict : Fields → Node

  data Fields : Type 0 where
    end : Fields
    field : List ℕ → Node → Fields → Fields

abbrev find : Fields → List ℕ → Option Node
find end key = none
find (field k v fields) key = if strcmp_equal k key then some v else find fields key

abbrev get_item : Node → List ℕ → Option Node
get_item (text s) key = none
get_item (flag b) key = none
get_item (number n) key = none
get_item (blob s) key = none
get_item (dict fields) key = find fields key

abbrev fields_of : Node → Fields
fields_of (text s) = end
fields_of (flag b) = end
fields_of (number n) = end
fields_of (blob s) = end
fields_of (dict fields) = fields

abbrev set_item : Node → List ℕ → Node → Node
set_item node key item = dict (field key item (fields_of node))

abbrev entries : Fields → List (Option (List ℕ) × Option Node)
entries end = []
entries (field k v fields) = (some k, some v) ∷ entries fields

abbrev items : Node → Option (List (Option (List ℕ) × Option Node))
items (text s) = none
items (flag b) = none
items (number n) = none
items (blob s) = none
items (dict fields) = some (entries fields)

abbrev string_val : Node → Option (List ℕ)
string_val (text s) = some s
string_val (flag b) = none
string_val (number n) = none
string_val (blob s) = none
string_val (dict fields) = none

abbrev uint_val : Node → Option ℕ
uint_val (text s) = none
uint_val (flag b) = none
uint_val (number n) = some n
uint_val (blob s) = none
uint_val (dict fields) = none

abbrev bool_val : Node → Option Bool
bool_val (text s) = none
bool_val (flag b) = some b
bool_val (number n) = none
bool_val (blob s) = none
bool_val (dict fields) = none

abbrev data_val : Node → Option (List ℕ)
data_val (text s) = none
data_val (flag b) = none
data_val (number n) = none
data_val (blob s) = some s
data_val (dict fields) = none

abbrev plist : Plist Node
plist = record {
  get_item = get_item;
  items = items;
  string_val = string_val;
  bool_val = bool_val;
  uint_val = uint_val;
  data_val = data_val;
  to_xml = λ node. none;
  new_dict = dict end;
  set_item = set_item;
  new_string = text;
  new_bool = flag;
  new_uint = number;
  new_data = blob;
}

strcmp_equal_self : (s : List ℕ) → strcmp_equal s s ≡ true
unfolding strcmp_equal
strcmp_equal_self [] = refl
strcmp_equal_self (c ∷ s) = rw (==_refl c, strcmp_equal_self s) refl

set_item-ne :
    (node : Node) (key : List ℕ) (item : Node) (other : List ℕ)
    → strcmp_equal key other ≡ false
    → get_item (set_item node key item) other ≡ get_item node other
set_item-ne (text s) key item other h = rw h refl
set_item-ne (flag b) key item other h = rw h refl
set_item-ne (number n) key item other h = rw h refl
set_item-ne (blob s) key item other h = rw h refl
set_item-ne (dict fields) key item other h = rw h refl

plist-IsPlist : IsPlist plist
plist-IsPlist = record {
  get-set_self = λ node key item. rw (strcmp_equal_self key) refl;
  get-set_ne = set_item-ne;
  string_lem = λ s. refl;
  bool_lem = λ b. refl;
  uint_lem = λ n. refl;
  data_lem = λ s. refl;
}

-- the callbacks count how often they are called
abbrev count : ℕ → ℕ × Status
count e = (e + 1, success)

abbrev calls : Callbacks Node ℕ
calls = record {
  send_plist = λ node. count;
  on_report_setup = count;
  on_report_connected_application_list = λ apps. count;
  on_application_connected = λ app. count;
  on_application_disconnected = λ app. count;
  on_application_sent_listing = λ app_id pages. count;
  on_application_sent_data = λ app_id dest_id bytes. count;
  on_application_updated = λ app_id dest_id. count;
}

send_msg-recv_msg_example :
    send_msg plist
      (record calls { send_plist = recv_plist plist calls })
      (some (codes "_rpc_reportSetup:"))
      (some (dict end))
      0
    ≡ recv_msg plist calls (some (codes "_rpc_reportSetup:")) (some (dict end)) 0
send_msg-recv_msg_example =
    send_msg-recv_msg plist plist-IsPlist (record calls { send_plist = recv_plist plist calls })
      calls (codes "_rpc_reportSetup:") (dict end) 0 refl

data_args-reads_example :
    let args = some (data_args plist (codes "C") (codes "A") 1 (codes "S") (codes "{}")) in
    (get_required_string plist args (codes "WIRConnectionIdentifierKey") ≡ some (codes "C"))
    × (get_required_string plist args (codes "WIRApplicationIdentifierKey") ≡ some (codes "A"))
    × (get_required_uint plist args (codes "WIRPageIdentifierKey") ≡ some 1)
    × (get_required_string plist args (codes "WIRSenderKey") ≡ some (codes "S"))
    × (get_required_data plist args (codes "WIRSocketDataKey") ≡ some (codes "{}"))
data_args-reads_example =
    data_args-reads plist plist-IsPlist (codes "C") (codes "A") 1 (codes "S") (codes "{}")
      (omega arith) (omega arith)

calls-AllSucceed : AllSucceed calls
calls-AllSucceed = record {
  setup = λ e. refl;
  list = λ apps e. refl;
  connected = λ app e. refl;
  disconnected = λ app e. refl;
  listing = λ app_id pages e. refl;
  sent = λ app_id dest_id bytes e. refl;
  updated = λ app_id dest_id e. refl;
}

-- a listing without its application
recv_msg_error_example :
    (recv_msg plist calls (some (codes "_rpc_applicationSentListing:")) (some (dict end)) 0).0 ≡ 0
unfolding recv_msg strcmp_equal
recv_msg_error_example =
    recv_msg_error plist calls calls-AllSucceed (some (codes "_rpc_applicationSentListing:"))
      (some (dict end)) 0 refl

abbrev listing : Node
listing = dict (field (codes "2") (dict (field (codes "WIRPageIdentifierKey") (number 2) end)) end)

abbrev pages : List Page
pages = record { page_id = 2; connection_id = none; title = none; url = none } ∷ []

parse_pages-Each_example : (parse_pages plist (some listing) ≡ some pages) ↔ (
    (found : List (Option (List ℕ) × Option Node)) × ((some listing >>= plist.items) ≡ some found)
    × Each (Describes plist) found pages)
parse_pages-Each_example = parse_pages-Each plist (some listing) pages

trim_lem_example :
    trim (
      codes "<?xml?>"
      ++ (codes "<plist"
          ++ (codes " v"
              ++ (b'>' ∷ (10 ∷ codes "<true/>" ++ (10 ∷ (codes "</plist>" ++ (10 ∷ []))))))))
    ≡ codes "<true/>"
unfolding strnstr strchr starts_with
trim_lem_example =
    trim_lem (codes "<?xml?>") (codes " v") 1 b'<' (codes "true/>") 10 1 refl refl refl
