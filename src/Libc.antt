-- ===== src/Libc.antt =====
-- What the sources use of the C library's string functions. A C string is the list of its bytes
-- before the final zero.
use Prim.Native.Char.{code}
use Prim.Native.String.{String}
use bootstrap_agency_templat.Prelude.{
  ◌≡◌, ◌↔◌, refl, arith, ℕ, zero, suc, ◌+◌, ◌-◌, ◌*◌, ◌/◌, ◌%◌, ◌^◌, min, Bool, true, false, ◌&&◌,
  ◌||◌, Option, none, some, List, [], ◌∷◌, ltb, leb, ◌==◌, if◌then◌else◌,
}

-- The bytes of an ASCII literal.
abbrev pub codes : String → List ℕ
codes String.[] = []
codes (String.◌∷◌ c s) = code c ∷ codes s

unfoldable pub tolower : ℕ → ℕ
tolower c = if leb b'A' c && leb c b'Z' then c + 32 else c

-- `strncmp(s, t, strlen(s)) == 0`: `t` begins with `s`.
unfoldable pub starts_with : List ℕ → List ℕ → Bool
starts_with [] t = true
starts_with (c ∷ s) [] = false
starts_with (c ∷ s) (d ∷ t) = c == d && starts_with s t

-- `strcmp(s, t) == 0`
unfoldable pub strcmp_equal : List ℕ → List ℕ → Bool
strcmp_equal [] [] = true
strcmp_equal [] (d ∷ t) = false
strcmp_equal (c ∷ s) [] = false
strcmp_equal (c ∷ s) (d ∷ t) = c == d && strcmp_equal s t

pub strcmp_equal-eq : (s t : List ℕ) → (strcmp_equal s t ≡ true) ↔ (s ≡ t)
unfolding strcmp_equal
strcmp_equal-eq [] [] = (λ h. refl, λ h. refl)
strcmp_equal-eq [] (d ∷ t) = (λ h. cc, λ h. cc)
strcmp_equal-eq (c ∷ s) [] = (λ h. cc, λ h. cc)
strcmp_equal-eq (c ∷ s) (d ∷ t) =
    (λ h. ground (arith, strcmp_equal-eq s t), λ h. ground (arith, strcmp_equal-eq s t))

-- `strcasecmp(s, t) == 0`
unfoldable pub strcasecmp_equal : List ℕ → List ℕ → Bool
unfolding tolower
strcasecmp_equal [] [] = true
strcasecmp_equal [] (d ∷ t) = false
strcasecmp_equal (c ∷ s) [] = false
strcasecmp_equal (c ∷ s) (d ∷ t) = tolower c == tolower d && strcasecmp_equal s t

-- `strncasecmp(t, s, strlen(s)) == 0`
unfoldable pub starts_with_case : List ℕ → List ℕ → Bool
unfolding tolower
starts_with_case [] t = true
starts_with_case (c ∷ s) [] = false
starts_with_case (c ∷ s) (d ∷ t) = tolower c == tolower d && starts_with_case s t

-- `strcasestr(t, s) != NULL`
unfoldable pub contains_case : List ℕ → List ℕ → Bool
unfolding starts_with_case
contains_case [] s = starts_with_case s []
contains_case (d ∷ t) s = starts_with_case s (d ∷ t) || contains_case t s

-- The bytes before the first zero.
unfoldable pub before_nul : List ℕ → List ℕ
before_nul [] = []
before_nul (c ∷ s) = if c == 0 then [] else c ∷ before_nul s

-- `strchr`: the offset of the first `c`.
unfoldable pub strchr : ℕ → List ℕ → Option ℕ
strchr c [] = none
strchr c (d ∷ t) =
    if c == d then some 0 else elim (strchr c t) [ none ↦ none | some i ↦ some (suc i) ]

-- `strrchr`: the offset of the last `c`.
unfoldable pub strrchr : ℕ → List ℕ → Option ℕ
strrchr c [] = none
strrchr c (d ∷ t) = elim (strrchr c t) [
  | some i ↦ some (suc i)
  | none ↦ if c == d then some 0 else none
]

-- `strnstr` of src/char_buffer.c, for a needle that is not empty: the offset of its first occurrence
-- in the given bytes, up to a zero.
unfoldable pub strnstr : List ℕ → List ℕ → Option ℕ
unfolding starts_with
strnstr s2 [] = none
strnstr s2 (c ∷ s1) =
    if c == 0
    then none
    else (if starts_with s2 (c ∷ s1)
        then some 0
        else elim (strnstr s2 s1) [ none ↦ none | some i ↦ some (suc i) ])

-- `strtol(s, &end, 0)`, before the bounds of a `long`: its sign, its magnitude and what `end` shows.
pub record Number : Type 0 where
  pub negative : Bool
  pub magnitude : ℕ
  pub end : List ℕ

is_space : ℕ → Bool
is_space c = c == 32 || (leb 9 c && leb c 13)

skip_spaces : List ℕ → List ℕ
unfolding is_space
skip_spaces [] = []
skip_spaces (c ∷ s) = if is_space c then skip_spaces s else c ∷ s

-- the value of a digit, or 36
digit_of : ℕ → ℕ
digit_of c =
    if leb b'0' c && leb c b'9'
    then c - b'0'
    else (if leb b'a' c && leb c b'z'
        then c - b'a' + 10
        else if leb b'A' c && leb c b'Z'
        then c - b'A' + 10
        else 36)

read_digits : ℕ → List ℕ → ℕ → ℕ × List ℕ
unfolding digit_of
read_digits base [] n = (n, [])
read_digits base (c ∷ s) n =
    let rest = read_digits base s (n * base + digit_of c) in
    if ltb (digit_of c) base then rest else (n, c ∷ s)

-- the digits after the sign: the base is read from the prefix
read_unsigned : List ℕ → Option (ℕ × List ℕ)
unfolding digit_of read_digits
read_unsigned [] = none
read_unsigned (c ∷ []) = if ltb (digit_of c) 10 then some (read_digits 10 (c ∷ []) 0) else none
read_unsigned (c ∷ x ∷ s) =
    if c == b'0'
    then (if (x == b'x' || x == b'X') && elim s [ [] ↦ false | d ∷ _ ↦ ltb (digit_of d) 16 ]
        then some (read_digits 16 s 0)
        else some (read_digits 8 (x ∷ s) 0))
    else if ltb (digit_of c) 10
    then some (read_digits 10 (c ∷ x ∷ s) 0)
    else none

-- an optional sign
sign_of : List ℕ → Bool × List ℕ
sign_of [] = (false, [])
sign_of (c ∷ s) = if c == b'-' then (true, s) else if c == b'+' then (false, s) else (false, c ∷ s)

unfoldable pub strtol : List ℕ → Number
unfolding skip_spaces sign_of read_unsigned
strtol s =
    let (negative, digits) = sign_of (skip_spaces s) in
    elim (read_unsigned digits) [
      | none ↦ record { negative = false; magnitude = 0; end = s }
      | some (n, end) ↦ record { negative = negative; magnitude = n; end = end }
    ]

-- Its conversion to an `int`, as a 32-bit pattern; a `long` saturates.
unfoldable pub to_int : Number → ℕ
to_int n =
    if n.negative
    then (2 ^ 64 - min n.magnitude (2 ^ 63)) % 2 ^ 32
    else min n.magnitude (2 ^ 63 - 1) % 2 ^ 32

-- `%d` of an `int`, given as its 32-bit pattern: ten digits are enough.
digits_of : ℕ → ℕ → List ℕ → List ℕ
digits_of zero n rest = rest
digits_of (suc k) n rest =
    let more = digits_of k (n / 10) ((b'0' + n % 10) ∷ rest) in
    if n / 10 == 0 then (b'0' + n % 10) ∷ rest else more

unfoldable pub print_int : ℕ → List ℕ
unfolding digits_of
print_int n = if ltb n (2 ^ 31) then digits_of 10 n [] else b'-' ∷ digits_of 10 (2 ^ 32 - n) []
