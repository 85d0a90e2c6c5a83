-- ===== src/WebSocket/Http.antt =====
-- `ws_read_http_request`, `ws_read_http_header` and `ws_read_headers` of src/websocket.c, on the
-- bytes of the input window. `strdup` and `strndup` get their memory: the source does not check.
use bootstrap_agency_templat.Prelude.{
  ℕ, zero, suc, ◌+◌, Bool, true, false, ◌&&◌, Option, none, some, List, [], ◌∷◌, ◌++◌, ◌==◌,
  if◌then◌else◌, length, take, drop,
}
use bootstrap_agency_templat.Libc.{
  codes, before_nul, strnstr, strrchr, strcasecmp_equal, contains_case, strtol, to_int,
}
use bootstrap_agency_templat.WebSocket.{Status, Ws}
use bootstrap_agency_templat.WebSocket.{success, failure}

abbrev pub crlf : List ℕ
crlf = 13 ∷ 10 ∷ []

-- what a scan over one kind of bytes passes, and what is left
unfoldable pub skip : ℕ → List ℕ → List ℕ
skip c [] = []
skip c (x ∷ s) = if x == c then skip c s else x ∷ s

unfoldable pub scan : ℕ → List ℕ → List ℕ × List ℕ
scan c [] = ([], [])
scan c (x ∷ s) = let (found, rest) = scan c s in if x == c then ([], x ∷ s) else (x ∷ found, rest)

-- without the bytes `c` at the end
unfoldable pub strip : ℕ → List ℕ → List ℕ
strip c [] = []
strip c (x ∷ s) = elim (strip c s) [ [] ↦ if x == c then [] else x ∷ [] | y ∷ t ↦ x ∷ y ∷ t ]

-- one element of the `trio`, and the rest of the line
unfoldable pub next_word : List ℕ → Option (List ℕ) × List ℕ
unfolding skip scan before_nul
next_word line =
    let (found, rest) = scan b' ' (skip b' ' line) in
    (elim found [ [] ↦ none | c ∷ s ↦ some (before_nul (c ∷ s)) ], rest)

-- What an operation on the window leaves.
pub record Parsed : Type 0 where
  pub ws : Ws
  pub status : Status
  pub left : List ℕ

-- `ws_read_http_request`; the end of the line stays in the window
unfoldable pub read_http_request : Ws → List ℕ → Parsed
unfolding strnstr next_word
read_http_request ws window = elim (strnstr crlf window) [
  | none ↦ record { ws = ws; status = failure; left = window }
  | some line_end ↦
      let (method, after_method) = next_word (take line_end window) in
      let (resource, after_resource) = next_word after_method in
      let (http_version, _) = next_word after_resource in
      record {
        ws = record ws { method = method; resource = resource; http_version = http_version };
        status = elim http_version [ none ↦ failure | some _ ↦ success ];
        left = drop line_end window;
      }
]

-- A key and its value; `none` for the empty line, or where the status is `failure`.
pub record Header : Type 0 where
  pub status : Status
  pub field : Option (List ℕ × List ℕ)
  pub left : List ℕ

-- The value of a header, from what follows its key in the line. Where the line has no colon, the
-- source copies up to the next zero, from the byte after the carriage return: `past` is what stands
-- there.
unfoldable pub header_value : List ℕ → List ℕ → List ℕ
unfolding skip strip before_nul
header_value [] past = before_nul past
header_value (colon ∷ s) past = before_nul (strip b' ' (skip b' ' s))

-- A header from its line, what stands past the carriage return, the window, and the next line.
unfoldable pub header_of : List ℕ → List ℕ → List ℕ → List ℕ → Header
unfolding scan header_value
header_of [] past window next = record { status = success; field = none; left = next }
header_of (c ∷ line) past window next =
    let (name, after) = scan b':' line in
    if c == b' ' then record { status = failure; field = none; left = window } else record {
      status = success;
      field = some (before_nul (c ∷ name), header_value after past);
      left = next;
    }

-- `ws_read_http_header`, with the memory `beyond` the window
unfoldable pub read_http_header : List ℕ → List ℕ → Header
unfolding strnstr header_of
read_http_header beyond window = elim (strnstr crlf window) [
  | none ↦ record { status = failure; field = none; left = window }
  | some line_end ↦
      header_of (take line_end window) (drop (line_end + 1) (window ++ beyond)) window
        (drop (line_end + 2) window)
]

pub record Headers : Type 0 where
  pub ws : Ws
  pub is_connection : Bool
  pub is_upgrade : Bool

-- the host without its port
unfoldable pub host_of : List ℕ → List ℕ
unfolding strrchr
host_of value = elim (strrchr b':' value) [ none ↦ value | some i ↦ take i value ]

-- the chain of `strcasecmp` tests
unfoldable pub apply_header : Headers → List ℕ → List ℕ → Headers
unfolding strcasecmp_equal contains_case strtol to_int host_of
apply_header h key value =
    if strcasecmp_equal key (codes "Connection")
    then record h { is_connection = contains_case value (codes "Upgrade") }
    else if strcasecmp_equal key (codes "Upgrade")
    then record h { is_upgrade = strcasecmp_equal value (codes "WebSocket") }
    else if strcasecmp_equal key (codes "Sec-WebSocket-Protocol")
    then record h { ws = record (h.ws) { protocol = some value } }
    else if strcasecmp_equal key (codes "Sec-WebSocket-Version")
    then record h { ws = record (h.ws) { version = to_int (strtol value) } }
    else if strcasecmp_equal key (codes "Sec-WebSocket-Key")
    then record h { ws = record (h.ws) { sec_key = some value } }
    else if strcasecmp_equal key (codes "Host")
    then record h { ws = record (h.ws) { req_host = some (host_of value) } }
    else h

-- the loop of `ws_read_headers`, on fuel
unfoldable pub header_loop : ℕ → List ℕ → Headers → List ℕ → Headers × List ℕ
unfolding read_http_header apply_header
header_loop zero beyond h window = (h, window)
header_loop (suc fuel) beyond h window =
    let header = read_http_header beyond window in
    elim header.field [
      | none ↦ (h, header.left)
      | some (key, value) ↦ header_loop fuel beyond (apply_header h key value) header.left
    ]

-- `ws_read_headers`: every header takes bytes from the window, so its length is fuel enough.
unfoldable pub read_headers : List ℕ → Ws → List ℕ → Ws × List ℕ
unfolding header_loop
read_headers beyond ws window =
    let (h, left) =
      header_loop (length window) beyond
        (record { ws = ws; is_connection = false; is_upgrade = false }) window in
    let has_key : Bool = elim (h.ws).sec_key [ none ↦ false | some _ ↦ true ] in
    (record (h.ws) { is_websocket = h.is_connection && h.is_upgrade && has_key }, left)
