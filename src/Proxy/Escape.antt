-- ===== src/Proxy/Escape.antt =====
-- `iwdp_escape_json_string_val` of src/ios_webkit_debug_proxy.c, and what a JSON string denotes.
use bootstrap_agency_templat.Prelude.{
  ℕ, ◌+◌, ◌*◌, ◌/◌, ◌%◌, ◌≤◌, ◌≡◌, ◌≢◌, ◌⊎◌, inl, inr, ◌||◌, List, [], ◌∷◌, map, arith, ltb, ◌==◌,
  if◌then◌else◌, Bool-cases, length,
}

-- the bytes of `\u%04d` for a number below 100
abbrev pub numbered : ℕ → List ℕ → List ℕ
numbered n rest = b'\\' ∷ b'u' ∷ b'0' ∷ b'0' ∷ (b'0' + n / 10) ∷ (b'0' + n % 10) ∷ rest

-- `iwdp_escape_json_string_val`. A byte from 128 on is a negative `char`, and is copied.
unfoldable pub escape_json_string_val : List ℕ → List ℕ
escape_json_string_val [] = []
escape_json_string_val (c ∷ str) =
    let rest = escape_json_string_val str in
    if ltb c 32
    then numbered c rest
    else if c == b'"' || c == b'\\'
    then b'\\' ∷ c ∷ rest
    else c ∷ rest

-- The JSON strings that the escape writes, as RFC 8259 reads them: what is between the quotes, and
-- what it denotes. Of the escapes with four digits, those of decimal digits with two leading zeros.
pub data Denotes : List ℕ → List ℕ → Type 0 where
  empty : Denotes [] []
  plain :
      (c : ℕ) {text value : List ℕ}
      → 32 ≤ c
      → c ≢ b'"'
      → c ≢ b'\\'
      → Denotes text value
      → Denotes (c ∷ text) (c ∷ value)
  quoted :
      (c : ℕ) {text value : List ℕ}
      → (c ≡ b'"') ⊎ (c ≡ b'\\')
      → Denotes text value
      → Denotes (b'\\' ∷ c ∷ text) (c ∷ value)
  coded :
      (high low : ℕ) {text value : List ℕ}
      → high ≤ 9
      → low ≤ 9
      → Denotes text value
      → Denotes
          (b'\\' ∷ b'u' ∷ b'0' ∷ b'0' ∷ (b'0' + high) ∷ (b'0' + low) ∷ text)
          ((16 * high + low) ∷ value)

-- what the decimal digits of a control byte mean in base 16
abbrev pub misread : ℕ → ℕ
misread c = if ltb c 32 then 16 * (c / 10) + c % 10 else c

-- The escaped text is always the inside of a JSON string. It denotes the given bytes, where a control
-- byte from 10 on has become another one: its decimal digits are read in base 16.
pub escape-Denotes : (str : List ℕ) → Denotes (escape_json_string_val str) (map misread str)
unfolding escape_json_string_val
escape-Denotes [] = empty
escape-Denotes (c ∷ str) =
    let rest = escape-Denotes str in
    elim (Bool-cases (ltb c 32)) [
      | inl t ↦
          rw (t, escape_json_string_val)
            (coded (c / 10) (c % 10) (ground arith) (ground arith) rest)
      | inr f ↦ elim (Bool-cases (c == b'"' || c == b'\\')) [
        | inl q ↦ rw (f, q, escape_json_string_val) (quoted c (ground arith) rest)
        | inr p ↦
            rw (f, p, escape_json_string_val)
              (plain c (ground arith) (ground arith) (ground arith) rest)
      ]
    ]

-- The escaped text and its final zero fit the `strlen(str) * 6 + 1` bytes that are allocated, and a
-- byte that is not escaped takes no more than itself.
pub length-escape :
    (str : List ℕ)
    → (length (escape_json_string_val str) ≤ 6 * length str)
      × (length str ≤ length (escape_json_string_val str))
unfolding escape_json_string_val
length-escape [] = (omega arith, omega arith)
length-escape (c ∷ str) =
    let (most, least) = length-escape str in
    elim (Bool-cases (ltb c 32)) [
      | inl t ↦ rw (t, escape_json_string_val) (omega arith, omega arith)
      | inr f ↦ elim (Bool-cases (c == b'"' || c == b'\\')) [
        | inl q ↦ rw (f, q, escape_json_string_val) (omega arith, omega arith)
        | inr p ↦ rw (f, p, escape_json_string_val) (omega arith, omega arith)
      ]
    ]
