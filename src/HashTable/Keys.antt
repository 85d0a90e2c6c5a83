-- ===== src/HashTable/Keys.antt =====
-- The two kinds of key of src/hash_table.c. An integer key is the pointer that `HT_KEY` casts it to;
-- a string key is null or a C string, given by its bytes before the final zero.
use bootstrap_agency_templat.Prelude.{
  ℕ, ◌+◌, ◌-◌, ◌*◌, ◌%◌, ◌^◌, ◌≡◌, ◌↔◌, refl, Bool, true, false, ◌&&◌, Option, none, some, List, [],
  ◌∷◌, ltb, ◌==◌, ==_iff, if◌then◌else◌, arith,
}
use Prim.Native.Nat.{bit_xor}
use bootstrap_agency_templat.HashTable.{Key}

-- a `char` in an `int`, and an `int` in an `intptr_t`, as bit patterns
abbrev pub char_to_int : ℕ → ℕ
char_to_int ch = if ltb ch 128 then ch else ch + (2 ^ 32 - 256)

abbrev pub int_to_intptr : ℕ → ℕ
int_to_intptr n = if ltb n (2 ^ 31) then n else n + (2 ^ 64 - 2 ^ 32)

-- the loop of `on_strhash`; the left shift of an `int` wraps
unfoldable hash_chars : List ℕ → ℕ → ℕ
hash_chars [] hc = hc
hash_chars (ch ∷ s) hc = hash_chars s (bit_xor ((hc * 32 + hc) % 2 ^ 32) (char_to_int ch))

unfoldable pub strhash : Option (List ℕ) → ℕ
unfolding hash_chars
strhash none = 0
strhash (some s) = int_to_intptr (hash_chars s 0)

-- `strcmp(s, t) == 0`
unfoldable pub str_equal : List ℕ → List ℕ → Bool
str_equal [] [] = true
str_equal [] (d ∷ t) = false
str_equal (c ∷ s) [] = false
str_equal (c ∷ s) (d ∷ t) = c == d && str_equal s t

-- `on_strcmp(k1, k2) == 0`
unfoldable pub strcmp_equal : Option (List ℕ) → Option (List ℕ) → Bool
unfolding str_equal
strcmp_equal none none = true
strcmp_equal none (some t) = false
strcmp_equal (some s) none = false
strcmp_equal (some s) (some t) = str_equal s t

pub str_equal_iff : (s t : List ℕ) → (str_equal s t ≡ true) ↔ (s ≡ t)
unfolding str_equal
str_equal_iff [] [] = (λ h. refl, λ h. refl)
str_equal_iff [] (d ∷ t) = (λ h. cc, λ h. cc)
str_equal_iff (c ∷ s) [] = (λ h. cc, λ h. cc)
str_equal_iff (c ∷ s) (d ∷ t) =
    (λ h. ground (arith, str_equal_iff s t), λ h. ground (arith, str_equal_iff s t))

-- `on_strcmp` says that two string keys are equal exactly where both are null or both have the same
-- bytes.
pub strcmp_equal_iff : (a b : Option (List ℕ)) → (strcmp_equal a b ≡ true) ↔ (a ≡ b)
unfolding strcmp_equal
strcmp_equal_iff none none = (λ h. refl, λ h. refl)
strcmp_equal_iff none (some t) = (λ h. cc, λ h. cc)
strcmp_equal_iff (some s) none = (λ h. cc, λ h. cc)
strcmp_equal_iff (some s) (some t) =
    (λ h. ground (arith, str_equal_iff s t), λ h. ground (arith, str_equal_iff s t))

instance abbrev pub int_key : Key ℕ
int_key = record { hash = λ key. key; equal = λ a b. a == b; equal_iff = ==_iff }

instance abbrev pub string_key : Key (Option (List ℕ))
string_key = record { hash = strhash; equal = strcmp_equal; equal_iff = strcmp_equal_iff }
