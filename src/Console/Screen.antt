-- ===== src/Console/Screen.antt =====
-- The text screen of kern/console.c: `cga_putc`.
use arch.Base.{
  ℕ, zero, suc, ◌+◌, ◌-◌, ◌%◌, ◌^◌, ◌≤◌, ◌<◌, ◌≡◌, refl, ◌∙◌, ◌==◌, ltb, leb, arith, if◌then◌else◌,
  update, inl, inr, Bool-cases,
}

-- CRT_COLS and CRT_SIZE
abbrev pub crt_cols : ℕ
crt_cols = 80

abbrev pub crt_size : ℕ
crt_size = 2000

-- `crt_buf` and `crt_pos`; the cells behind the screen stand for the memory that follows it.
pub record Screen : Type 0 where
  pub crt_buf : ℕ → ℕ
  pub crt_pos : ℕ

-- The first lines of `cga_putc`: black on white where no attribute is given.
abbrev pub with_attribute : ℕ → ℕ
with_attribute c = if ltb c 256 then c + 0x700 else c

-- The cases of the `switch` but '\t'.
unfoldable pub put_cell : ℕ → Screen → Screen
put_cell c s =
    if c % 256 == 8
    then if ltb 0 s.crt_pos
      then record s {
        crt_pos = s.crt_pos - 1;
        crt_buf = update s.crt_buf (s.crt_pos - 1) ((c - c % 256 + 32) % 2 ^ 16);
      }
      else s
    else if c % 256 == 10
    then record s { crt_pos = s.crt_pos + crt_cols - (s.crt_pos + crt_cols) % crt_cols }
    else if c % 256 == 13
    then record s { crt_pos = s.crt_pos - s.crt_pos % crt_cols }
    else record s { crt_buf = update s.crt_buf s.crt_pos (c % 2 ^ 16); crt_pos = s.crt_pos + 1 }

-- The lines move up by one when the cursor has left the screen.
unfoldable pub scroll : Screen → Screen
scroll s =
    if leb crt_size s.crt_pos
    then record s {
      crt_buf = λ i.
          if ltb i (crt_size - crt_cols)
          then s.crt_buf (i + crt_cols)
          else if ltb i crt_size
          then 0x720
          else s.crt_buf i;
      crt_pos = s.crt_pos - crt_cols;
    }
    else s

-- `cga_putc` of a character other than '\t'.
unfoldable pub put_plain : ℕ → Screen → Screen
put_plain c s = scroll (put_cell (with_attribute c) s)

unfoldable pub put_blanks : ℕ → Screen → Screen
put_blanks zero s = s
put_blanks (suc n) s = put_blanks n (put_plain 32 s)

-- `cga_putc`; a '\t' is five blanks by way of `cons_putc`.
unfoldable pub cga_putc : ℕ → Screen → Screen
cga_putc c s = if with_attribute c % 256 == 9 then scroll (put_blanks 5 s) else put_plain c s

-- The cursor is on the screen, and the memory behind the screen is what it was.
abbrev pub OnScreen : Screen → Screen → Type 0
OnScreen s t = (t.crt_pos < crt_size) × ((i : ℕ) → crt_size ≤ i → t.crt_buf i ≡ s.crt_buf i)

put_cell-pos : (c : ℕ) (s : Screen) → s.crt_pos < crt_size → (put_cell c s).crt_pos ≤ crt_size
unfolding put_cell
put_cell-pos c s h = ground arith

put_cell-rest :
    (c : ℕ) (s : Screen) (i : ℕ)
    → s.crt_pos < crt_size
    → crt_size ≤ i
    → (put_cell c s).crt_buf i ≡ s.crt_buf i
unfolding put_cell
put_cell-rest c s i h le = ground arith

scroll-OnScreen : (s : Screen) → s.crt_pos ≤ crt_size → OnScreen s (scroll s)
unfolding scroll
scroll-OnScreen s h = elim (Bool-cases (leb crt_size s.crt_pos)) [
  | inl e ↦ rw e (omega arith, λ i le. ground arith)
  | inr e ↦ rw e (ground arith, λ i le. refl)
]

put_plain-OnScreen : (c : ℕ) (s : Screen) → s.crt_pos < crt_size → OnScreen s (put_plain c s)
unfolding put_plain
put_plain-OnScreen c s h =
    let t = put_cell (with_attribute c) s in
    let (pos, rest) = scroll-OnScreen t (put_cell-pos (with_attribute c) s h) in
    (pos, λ i le. rest i le ∙ put_cell-rest (with_attribute c) s i h le)

put_blanks-OnScreen : (n : ℕ) (s : Screen) → s.crt_pos < crt_size → OnScreen s (put_blanks n s)
unfolding put_blanks
put_blanks-OnScreen zero s h = (h, λ i le. refl)
put_blanks-OnScreen (suc n) s h =
    let (pos, rest) = put_plain-OnScreen 32 s h in
    let (pos', rest') = put_blanks-OnScreen n (put_plain 32 s) pos in
    (pos', λ i le. rest' i le ∙ rest i le)

-- With the cursor on the screen, `cga_putc` of any character leaves it there, and writes no cell
-- behind the screen.
pub cga_putc-OnScreen : (c : ℕ) (s : Screen) → s.crt_pos < crt_size → OnScreen s (cga_putc c s)
unfolding cga_putc
cga_putc-OnScreen c s h = elim (Bool-cases (with_attribute c % 256 == 9)) [
  | inl e ↦
      let (pos, rest) = put_blanks-OnScreen 5 s h in
      let (pos', rest') = scroll-OnScreen (put_blanks 5 s) (omega arith) in
      rw e (pos', λ i le. rest' i le ∙ rest i le)
  | inr e ↦ rw e (put_plain-OnScreen c s h)
]
