-- ===== src/Examples/Symbols.antt =====
-- Searches of kern/kdebug.c in an array of five stabs; the type 0x24 is N_FUN.
use arch.Base.{ℕ, ◌+◌, ◌≡◌, refl, some, arith, ◌==◌, if◌then◌else◌}
use arch.Debug.{
  Stab, stab_binsearch, search_loop, search_round, narrow_from, narrow, scan_down, search_end,
}
use arch.Base.{true, [], ◌∷◌}
use arch.Text.Strings.{strfind}
use arch.Debug.Info.{debuginfo_tables, function_info, with_name, line_info, file_back, count_args}
use arch.Debug.Answer.{IsSome, debuginfo_tables-IsSome}
use arch.Debug.Found.{Found, stab_binsearch_lem}
use arch.Debug.Termination.{stab_binsearch-ends}

abbrev stab : (n_type n_value : ℕ) → Stab
stab n_type n_value = record {
  n_strx = 0;
  n_type = n_type;
  n_other = 0;
  n_desc = 0;
  n_value = n_value;
}

abbrev symbols : ℕ → Stab
symbols i =
    if i == 0
    then stab 0x64 0x100
    else if i == 1
    then stab 0x24 0x100
    else if i == 2
    then stab 0x44 0x104
    else if i == 3
    then stab 0x24 0x140
    else stab 0x24 0x141

-- The function at 0x100 goes up to the stab 2.
inside : stab_binsearch symbols 0x24 0 5 0x120 ≡ some (2, 3)
unfolding stab_binsearch search_loop search_round narrow_from narrow scan_down search_end
inside = refl

-- The address 0x140 is an exact match of the stab 3, but the search reports the stab 4, at 0x141.
adjacent : stab_binsearch symbols 0x24 0 5 0x140 ≡ some (5, 5)
unfolding stab_binsearch search_loop search_round narrow_from narrow scan_down search_end
adjacent = refl

stab_binsearch-ends_example : (p : ℕ × ℕ) × (stab_binsearch symbols 0x24 0 5 0x140 ≡ some p)
stab_binsearch-ends_example = stab_binsearch-ends symbols 0x24 0 5 0x140

stab_binsearch_lem_example :
    (q : ℕ) × (q1 : ℕ) × (stab_binsearch symbols 0x24 0 5 0x120 ≡ some (q + 1, q1))
    × Found symbols 0x24 0 5 0x120 q q1
stab_binsearch_lem_example =
    stab_binsearch_lem symbols 0x24 0 5 0x120 1 (λ i j lo le hi ti tj. ground arith)
      (λ i lo hi ti e. ground arith) (omega arith) (omega arith) (omega arith) refl (omega arith)

-- A header, a file, a function and two lines, with the names "a" and "f:F".
abbrev program : ℕ → Stab
program i =
    if i == 0
    then stab 0 4
    else if i == 1
    then stab 0x64 0x100
    else if i == 2
    then record (stab 0x24 0x110) { n_strx = 2 }
    else if i == 3
    then record (stab 0x44 0x0) { n_desc = 7 }
    else record (stab 0x44 0x8) { n_desc = 8 }

-- The address 0x114 is in line 7 of "f", which starts at 0x110.
line_seven :
    debuginfo_tables program 5 (97 ∷ 0 ∷ 102 ∷ 58 ∷ 70 ∷ 0 ∷ []) 0x114
    ≡ some (
      true,
      record {
        eip_file = some 0;
        eip_line = 7;
        eip_fn_name = some 2;
        eip_fn_namelen = 1;
        eip_fn_addr = 0x110;
        eip_fn_narg = 0;
      },
    )
unfolding debuginfo_tables function_info with_name line_info file_back count_args strfind
    stab_binsearch search_loop search_round narrow_from narrow scan_down search_end
line_seven = refl

debuginfo_tables-IsSome_example :
    IsSome (debuginfo_tables program 5 (97 ∷ 0 ∷ 102 ∷ 58 ∷ 70 ∷ 0 ∷ []) 0x114)
debuginfo_tables-IsSome_example =
    debuginfo_tables-IsSome program 5 (97 ∷ 0 ∷ 102 ∷ 58 ∷ 70 ∷ 0 ∷ []) 0x114 refl
