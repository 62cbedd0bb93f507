-- ===== src/Console/Keyboard.antt =====
-- `kbd_proc_data` of kern/console.c. `shift` is its static variable, and what it does to the reset port is a
-- field of the result.
pub mod Spec
pub mod Bits
pub mod Modifiers
use Prim.Native.Nat.{bit_and, bit_or, bit_xor}
use arch.Base.{
  ℕ, ◌+◌, ◌-◌, ◌==◌, Bool, true, false, ◌&&◌, not, Option, none, some, List, [], ◌∷◌, if◌then◌else◌,
  leb,
}
use arch.Console.Keymaps.{shiftcode, togglecode, entry_at, charcode}

-- E0ESC
abbrev pub e0esc : ℕ
e0esc = 64

-- What a byte of the keyboard gives: the character, or 0, the new `shift`, and whether the machine is
-- reset.
pub record Key : Type 0 where
  pub char : ℕ
  pub shift : ℕ
  pub reboots : Bool

-- A bit, or one of several, is set.
abbrev pub is_set : (word mask : ℕ) → Bool
is_set word mask = not (bit_and word mask == 0)

-- `word & ~mask`, of 32 bits
abbrev pub clear : (word mask : ℕ) → ℕ
clear word mask = bit_and word (4294967295 - mask)

-- What CAPSLOCK does to a letter.
abbrev pub swap_case : ℕ → ℕ
swap_case c = if leb 97 c && leb c 122 then c - 32 else if leb 65 c && leb c 90 then c + 32 else c

-- KEY_DEL with CTL and ALT
abbrev pub is_reset : (shift c : ℕ) → Bool
is_reset shift c = bit_and shift 6 == 6 && (c == 233)

-- From `shift |= shiftcode[data]` on.
unfoldable pub press : (scan shift : ℕ) → Key
press scan shift =
    let new = bit_xor (bit_or shift (entry_at shiftcode scan)) (entry_at togglecode scan) in
    let c = charcode (bit_and new 3) scan in
    let typed = if is_set new 8 then swap_case c else c in
    record { char = typed; shift = new; reboots = is_reset new typed }

-- "Key released"
unfoldable pub release : (scan shift : ℕ) → Key
release scan shift =
    let key = if is_set shift e0esc then scan else bit_and scan 127 in
    record {
      char = 0;
      shift = clear shift (bit_or (entry_at shiftcode key) e0esc);
      reboots = false;
    }

-- From `data = inb(KBDATAP)` on; `scan` is that byte.
unfoldable pub kbd_data : (scan shift : ℕ) → Key
kbd_data scan shift =
    if scan == 224
    then record { char = 0; shift = bit_or shift e0esc; reboots = false }
    else if is_set scan 128
    then release scan shift
    else if is_set shift e0esc
    then press (bit_or scan 128) (clear shift e0esc)
    else press scan shift

-- `none` for -1: no data, or the mouse's.
unfoldable pub kbd_proc_data : (stat scan shift : ℕ) → Option Key
kbd_proc_data stat scan shift =
    if not (is_set stat 1)
    then none
    else if is_set stat 32
    then none
    else some (kbd_data scan shift)

-- `shift` after the bytes of a keyboard.
unfoldable pub kbd_bytes : List ℕ → (shift : ℕ) → ℕ
kbd_bytes [] shift = shift
kbd_bytes (d ∷ ds) shift = let next : Key = kbd_data d shift in kbd_bytes ds next.shift
