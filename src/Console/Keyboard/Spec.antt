-- ===== src/Console/Keyboard/Spec.antt =====
-- What the bytes of a keyboard mean: presses and releases of keys, and which modifiers they leave.
use arch.Base.{
  ℕ, ◌+◌, ◌-◌, ◌<◌, ◌==◌, Bool, true, false, ◌&&◌, ◌||◌, not, List, [], ◌∷◌, if◌then◌else◌, leb,
}

-- The modifiers that are held, the locks that are on, and whether the last byte was 0xE0
pub record Keyboard : Type 0 where
  pub shift : Bool
  pub ctl : Bool
  pub alt : Bool
  pub caps : Bool
  pub num : Bool
  pub scroll : Bool
  pub escaped : Bool

abbrev pub bit : Bool → ℕ → ℕ
bit b n = if b then n else 0

-- The word of those bits, in the order of the record
abbrev pub word : (a b c d e f g : Bool) → ℕ
word a b c d e f g = bit a 1 + bit b 2 + bit c 4 + bit d 8 + bit e 16 + bit f 32 + bit g 64

-- The word of `shift` for a keyboard
abbrev pub code : Keyboard → ℕ
code k = word k.shift k.ctl k.alt k.caps k.num k.scroll k.escaped

-- A key is pressed or released; a key with the prefix 0xE0 is a key from 128 on.
pub data Event : Type 0 where
  pressed released : (key : ℕ) → Event

-- What the bytes of a keyboard mean, and whether a prefix is left over.
abbrev pub events : (escaped : Bool) → List ℕ → List Event × Bool
events escaped [] = ([], escaped)
events escaped (d ∷ ds) =
    let (prefixed, prefix) = events true ds in
    let (rest, end) = events false ds in
    if d == 224
    then (prefixed, prefix)
    else if leb 128 d
    then (released (if escaped then d else d - 128) ∷ rest, end)
    else (pressed (if escaped then d + 128 else d) ∷ rest, end)

-- The last of the events that are of one of the keys was a press; `before` if there is none.
abbrev pub held : (is_key : ℕ → Bool) → (before : Bool) → List Event → Bool
held is_key before [] = before
held is_key before (pressed key ∷ es) = held is_key (is_key key || before) es
held is_key before (released key ∷ es) = held is_key (not (is_key key) && before) es

-- A lock changes at each press of its key.
abbrev pub locked : (key : ℕ) → (before : Bool) → List Event → Bool
locked lock before [] = before
locked lock before (pressed key ∷ es) = locked lock (if key == lock then not before else before) es
locked lock before (released key ∷ es) = locked lock before es

-- The keys of each modifier, left and right
abbrev pub is_shift : ℕ → Bool
is_shift key = key == 42 || (key == 54)

abbrev pub is_ctl : ℕ → Bool
is_ctl key = key == 29 || (key == 157)

abbrev pub is_alt : ℕ → Bool
is_alt key = key == 56 || (key == 184)

abbrev pub after_events : Keyboard → List Event → (escaped : Bool) → Keyboard
after_events k es escaped = record {
  shift = held is_shift k.shift es;
  ctl = held is_ctl k.ctl es;
  alt = held is_alt k.alt es;
  caps = locked 58 k.caps es;
  num = locked 69 k.num es;
  scroll = locked 70 k.scroll es;
  escaped = escaped;
}

abbrev pub AllBytes : List ℕ → Type 0
AllBytes [] = Unit {0}
AllBytes (d ∷ ds) = (d < 256) × AllBytes ds

-- The keyboard after one byte
abbrev pub after_byte : (d : ℕ) → Keyboard → Keyboard
after_byte d k =
    if d == 224
    then record k { escaped = true }
    else if leb 128 d
    then after_events k (released (if k.escaped then d else d - 128) ∷ []) false
    else after_events k (pressed (if k.escaped then d + 128 else d) ∷ []) false
