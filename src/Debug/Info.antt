-- ===== src/Debug/Info.antt =====
-- `debuginfo_eip` of kern/kdebug.c from the checks of the string table on, once the tables are found.
use arch.Base.{
  ℕ, zero, suc, ◌+◌, ◌-◌, ◌%◌, ◌^◌, Bool, true, false, ◌&&◌, ◌||◌, not, Option, none, some, List,
  drop, length, [], ◌∷◌, ◌==◌, ltb, leb, if◌then◌else◌,
}
use arch.Debug.{Stab, stab_binsearch}
use arch.Text.Strings.{strfind}

-- `struct Eipdebuginfo`, with names as offsets into the string table; none is "<unknown>".
pub record Eipdebuginfo : Type 0 where
  pub eip_file : Option ℕ
  pub eip_line : ℕ
  pub eip_fn_name : Option ℕ
  pub eip_fn_namelen : ℕ
  pub eip_fn_addr : ℕ
  pub eip_fn_narg : ℕ

abbrev pub initial_info : ℕ → Eipdebuginfo
initial_info addr = record {
  eip_file = none;
  eip_line = 0;
  eip_fn_name = none;
  eip_fn_namelen = 9;
  eip_fn_addr = addr;
  eip_fn_narg = 0;
}

-- The result, 0 or -1, and what is stored in `*info`.
abbrev pub Answer : Type 0
Answer = Bool × Eipdebuginfo

-- The checks of the string table: it is not empty, and its last byte is 0.
abbrev pub ends_with_zero : List ℕ → Bool
ends_with_zero [] = false
ends_with_zero (c ∷ []) = c == 0
ends_with_zero (c ∷ d ∷ cs) = ends_with_zero (d ∷ cs)

-- The tables: the stabs, how many there are, and the bytes of the string table. A search reports
-- indices one up; where the code would read the stab -1 the model has none.
module _ (stabs : ℕ → Stab) (count : ℕ) (stabstr : List ℕ) where
  abbrev pub name_at : ℕ → Option ℕ → Option ℕ
  name_at i old = if ltb (stabs i).n_strx (length stabstr) then some (stabs i).n_strx else old

  -- `strfind(info->eip_fn_name, ':') - info->eip_fn_name`
  abbrev pub namelen : Option ℕ → Option ℕ
  namelen none = some 9
  namelen (some x) = strfind (drop x stabstr) 58

  -- The loop back to the file's stab, from `l1 - 1` on: the index it stops at, one up.
  unfoldable pub file_back : (lfile l1 : ℕ) → ℕ
  file_back lfile zero = zero
  file_back lfile (suc l) =
      let before = file_back lfile l in
      if leb lfile l
        && (not ((stabs l).n_type == 0x84)
            && (not ((stabs l).n_type == 0x64) || (stabs l).n_value == 0))
      then before
      else suc l

  abbrev pub file_name : (lfile l1 : ℕ) → Option ℕ → Option ℕ
  file_name lfile zero old = old
  file_name lfile (suc l) old = if leb lfile l then name_at l old else old

  -- The parameters that stand from `l` on, with the stabs that are left before `rfun`.
  unfoldable pub count_args : (left l : ℕ) → ℕ
  count_args zero l = 0
  count_args (suc left) l =
      let more = count_args left (l + 1) in if (stabs l).n_type == 0xa0 then suc more else 0

  -- The line, the file and the arguments; `fun` is `lfun` and `rfun` if there is a function.
  unfoldable pub line_info :
      (lfile lfun1 rfun1 lline rline1 addr : ℕ) → Eipdebuginfo → Option Answer
  line_info lfile lfun1 rfun1 lline rline1 addr info =
      elim (stab_binsearch stabs 0x44 lline rline1 addr) [
        | none ↦ none
        | some (zero, r1) ↦ none
        | some (suc l, r1) ↦
            if leb (suc l) r1
            then some (
              true,
              record info {
                eip_line = (stabs l).n_desc;
                eip_file = file_name lfile (file_back lfile (suc l)) info.eip_file;
                eip_fn_narg = if ltb lfun1 rfun1 then count_args (rfun1 - 1 - lfun1) lfun1 else 0;
              },
            )
            else some (false, info)
      ]

  unfoldable pub with_name :
      (lfile lfun1 rfun1 lline rline1 addr : ℕ) → Eipdebuginfo → Option Answer
  with_name lfile lfun1 rfun1 lline rline1 addr info = elim (namelen info.eip_fn_name) [
    | none ↦ none
    | some n ↦ line_info lfile lfun1 rfun1 lline rline1 addr (record info { eip_fn_namelen = n })
  ]

  unfoldable pub function_info : (lfile rfile1 addr : ℕ) → Eipdebuginfo → Option Answer
  function_info lfile rfile1 addr info = elim (stab_binsearch stabs 0x24 lfile rfile1 addr) [
    | none ↦ none
    | some (zero, rfun1) ↦ none
    | some (suc lfun, rfun1) ↦
        if leb (suc lfun) rfun1
        then (let start = (stabs lfun).n_value in
            with_name lfile (suc lfun) rfun1 lfun rfun1 ((addr + 2 ^ 32 - start) % 2 ^ 32)
              (record info { eip_fn_name = name_at lfun info.eip_fn_name; eip_fn_addr = start }))
        else with_name lfile (suc lfun) rfun1 lfile rfile1 addr (record info { eip_fn_addr = addr })
  ]

  unfoldable pub debuginfo_tables : (addr : ℕ) → Option Answer
  debuginfo_tables addr =
      let info = initial_info addr in
      if not (ends_with_zero stabstr)
      then some (false, info)
      else elim (stab_binsearch stabs 0x64 0 count addr) [
        | none ↦ none
        | some (zero, rfile1) ↦ none
        | some (suc lfile, rfile1) ↦
            if lfile == 0 then some (false, info) else function_info lfile rfile1 addr info
      ]
