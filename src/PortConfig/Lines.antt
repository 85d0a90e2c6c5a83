-- ===== src/PortConfig/Lines.antt =====
-- `pc_add_line` of src/port_config.c ends: every turn takes a comma.
use bootstrap_agency_templat.Prelude.{
  ℕ, zero, suc, ◌≤◌, ◌<◌, ◌≡◌, refl, inl, inr, true, Option, List, [], ◌∷◌, arith, Bool-cases,
  Option-cases, length, drop, length-drop,
}
use bootstrap_agency_templat.PortConfig.{
  Pc, Groups, skip_blanks, entry_length, starts_with_comma, add_entry, add_loop,
}

module _ (regexec : List ℕ → Option Groups) where
  length-skip : (s : List ℕ) → length (skip_blanks regexec s) ≤ length s
  unfolding skip_blanks
  length-skip [] = omega arith
  length-skip (c ∷ s) = ground (arith, length-skip s)

  comma_left : (s : List ℕ) → starts_with_comma regexec s ≡ true → length (drop 1 s) < length s
  comma_left [] h = absurd (cc h)
  comma_left (c ∷ s) h = omega arith

  -- The fuel of `pc_add_line` is enough: any two numbers of turns that are more than the bytes of the
  -- line give the same entries and the same error.
  pub add_loop-fuel :
      (f g : ℕ) (pc : Pc) (line : List ℕ)
      → length line < f
      → length line < g
      → add_loop regexec f pc line ≡ add_loop regexec g pc line
  unfolding add_loop
  add_loop-fuel zero g pc line h k = absurd (omega arith)
  add_loop-fuel (suc f) zero pc line h k = absurd (omega arith)
  add_loop-fuel (suc f) (suc g) pc line h k =
      let curr = skip_blanks regexec line in
      let end = drop (entry_length regexec curr) curr in
      let added = add_entry regexec pc curr in
      elim (Option-cases added.error) [
        | inr (at, s) ↦ rw (s, add_loop) refl
        | inl n ↦ elim (Bool-cases (starts_with_comma regexec end)) [
          | inr c ↦ rw (n, c, add_loop) refl
          | inl c ↦
              let less : length (drop 1 end) < length line = omega (
                arith,
                comma_left end c,
                length-drop (entry_length regexec curr) curr,
                length-skip line,
              ) in
              rw (n, c, add_loop)
                (add_loop-fuel f g added.pc (drop 1 end) (omega arith) (omega arith))
        ]
      ]
