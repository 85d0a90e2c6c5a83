-- ===== src/PortConfig.antt =====
-- src/port_config.c: the list of the configured devices and their ports, and the choice of a port.
-- An `int` is its 32-bit pattern. `regexec` is the C library's matcher on the one pattern of the
-- file: the offsets of its groups in the text.
pub mod Choice
pub mod Lines
use bootstrap_agency_templat.Prelude.{
  ℕ, zero, suc, ◌+◌, ◌-◌, ◌*◌, ◌/◌, ◌%◌, ◌^◌, ◌≤◌, ◌<◌, min, max, ◌≡◌, refl, sym, ap, ap₂, ◌∙◌,
  subst, fun_ext, ◌≢◌, ◌↔◌, ◌⊎◌, inl, inr, Bool, true, false, not, ◌&&◌, ◌||◌, Option, none, some,
  List, [], ◌∷◌, ◌++◌, map, append-nil, append_assoc, arith, ltb, leb, ◌==◌, if◌then◌else◌, ltb→lt,
  lt→ltb, leb→le, le→leb, ltb-false, ==_iff, ==_refl, ==_ne, tests, Bool-cases, Option-cases,
  length, get_or, set, take, drop, replicate, length-append, length-set, length-take, length-drop,
  length-replicate, get_or-set_self, get_or-set_ne, take-append-drop, take-append_length,
  drop-append_length, take-append_le, drop-append_le, take_all, drop_all, drop-drop, take-nil,
  take_seam, drop_seam, drop-take, nil_of_length, bit_xor_twice, bit_xor-bits, bit_xor-halves,
}
use bootstrap_agency_templat.Libc.{
  codes, strcmp_equal, strcasecmp_equal, starts_with_case, before_nul, strtol, to_int,
}

-- `struct pc_entry_struct`, without its link
pub record Entry : Type 0 where
  pub device_id : Option (List ℕ)
  pub min_port : ℕ
  pub max_port : ℕ

-- The entries from `head` to `tail`.
pub record Pc : Type 0 where
  pub entries : List Entry

unfoldable pub new : Pc
new = record { entries = [] }

unfoldable pub clear : Pc → Pc
clear pc = record { entries = [] }

unfoldable pub add : Pc → Option (List ℕ) → ℕ → ℕ → Pc
add pc device_id min_port max_port = record {
  entries =
      pc.entries
      ++ (record { device_id = device_id; min_port = min_port; max_port = max_port } ∷ []);
}

-- signed comparison
abbrev pub negative_one : ℕ
negative_one = 2 ^ 32 - 1

abbrev pub biased : ℕ → ℕ
biased n = (n + 2 ^ 31) % 2 ^ 32

abbrev pub less : ℕ → ℕ → Bool
less a b = ltb (biased a) (biased b)

-- the test of the loop in `pc_find`
unfoldable pub matches : Option (List ℕ) → Entry → Bool
unfolding strcmp_equal strcasecmp_equal
matches device_id e = elim e.device_id [
  | none ↦ elim device_id [ none ↦ true | some d ↦ false ]
  | some s ↦
      strcmp_equal s (codes "*") || elim device_id [ none ↦ false | some d ↦ strcasecmp_equal s d ]
]

unfoldable pub walk : Option (List ℕ) → List Entry → Option Entry
unfolding matches
walk device_id [] = none
walk device_id (e ∷ es) = if matches device_id e then some e else walk device_id es

-- `pc_find`
unfoldable pub find : Pc → Option (List ℕ) → Option Entry
unfolding walk
find pc device_id = walk device_id pc.entries

-- What `pc_select_port` returns, and what it writes through its pointers.
pub record Selected : Type 0 where
  pub is_found : Bool
  pub port : ℕ
  pub min_port : ℕ
  pub max_port : ℕ

unfoldable pub select_port : Pc → Option (List ℕ) → ℕ → Selected
unfolding find
select_port pc device_id port = elim (find pc device_id) [
  | none ↦ record {
    is_found = false;
    port = negative_one;
    min_port = negative_one;
    max_port = negative_one;
  }
  | some config ↦ record {
    is_found = true;
    port =
        if not (less port 0) && (less port config.min_port || less config.max_port port)
        then negative_one
        else port;
    min_port = config.min_port;
    max_port = config.max_port;
  }
]

-- the offsets of a group, `none` for -1
abbrev pub Groups : Type 0
Groups = ℕ → Option (ℕ × ℕ)

module _ (regexec : List ℕ → Option Groups) where
  -- the name in a line: group 2, or any device where there is none
  unfoldable pub device_of : Groups → List ℕ → Option (List ℕ)
  unfolding starts_with_case
  device_of groups line = elim (groups 2) [
    | none ↦ some (codes "*")
    | some (so, eo) ↦
        let name = take (eo - so) (drop so line) in
        if starts_with_case name (codes "null") then none else some (before_nul name)
  ]

  abbrev pub start_of : Option (ℕ × ℕ) → ℕ
  start_of none = 0
  start_of (some (so, eo)) = so

  -- `pc_parse`, on the rest of the line and the length of the entry
  unfoldable pub parse : List ℕ → ℕ → Option Entry
  unfolding device_of strtol to_int
  parse line len = elim (regexec (before_nul (take len line))) [
    | none ↦ none
    | some groups ↦
        let min_port = to_int (strtol (drop (start_of (groups 3)) line)) in
        let ranged : Bool = elim (groups 4) [
          | none ↦ false
          | some _ ↦ elim (groups 5) [ none ↦ false | some _ ↦ true ]
        ] in
        some (record {
          device_id = device_of groups line;
          min_port = min_port;
          max_port = if ranged then to_int (strtol (drop (start_of (groups 5)) line)) else min_port;
        })
  ]

  -- the two scans of `pc_add_line`: the blanks before an entry, and the length of the entry
  unfoldable pub skip_blanks : List ℕ → List ℕ
  skip_blanks [] = []
  skip_blanks (c ∷ s) = if c == b' ' || c == 9 then skip_blanks s else c ∷ s

  unfoldable pub entry_length : List ℕ → ℕ
  entry_length [] = 0
  entry_length (c ∷ s) =
      if c == 0 || c == 10 || c == b'#' || c == b',' then 0 else suc (entry_length s)

  abbrev pub starts_with_comma : List ℕ → Bool
  starts_with_comma [] = false
  starts_with_comma (c ∷ s) = c == b','

  -- What `pc_add_line` leaves: `error` is the text from the entry that is refused, or none.
  pub record Added : Type 0 where
    pub pc : Pc
    pub error : Option (List ℕ)

  -- the entry at the front of the line, if it is not empty
  unfoldable pub add_entry : Pc → List ℕ → Added
  unfolding add parse
  add_entry pc curr =
      if entry_length curr == 0
      then record { pc = pc; error = none }
      else elim (parse curr (entry_length curr)) [
        | none ↦ record { pc = pc; error = some curr }
        | some e ↦ record { pc = add pc e.device_id e.min_port e.max_port; error = none }
      ]

  -- `pc_add_line` on fuel; a zero byte stands behind the line
  unfoldable pub add_loop : ℕ → Pc → List ℕ → Added
  unfolding add_entry skip_blanks entry_length
  add_loop zero pc line = record { pc = pc; error = none }
  add_loop (suc fuel) pc line =
      let curr = skip_blanks line in
      let end = drop (entry_length curr) curr in
      let added = add_entry pc curr in
      elim added.error [
        | some at ↦ added
        | none ↦ elim (starts_with_comma end) [
          | false ↦ added
          | true ↦ add_loop fuel added.pc (drop 1 end)
        ]
      ]

  -- Every turn takes a comma from the line.
  unfoldable pub add_line : Pc → List ℕ → Added
  unfolding add_loop
  add_line pc line = add_loop (suc (length line)) pc line
