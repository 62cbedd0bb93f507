-- ===== src/Examples/Keys.antt =====
-- Bytes of a keyboard.
use arch.Base.{ℕ, ◌≡◌, refl, false, List, [], ◌∷◌, arith}
use arch.Console.Keyboard.{press, release, kbd_data, kbd_bytes}
use arch.Console.Keyboard.Spec.{Keyboard, code, events, after_events}
use arch.Console.Keyboard.Modifiers.{kbd_bytes_lem}

abbrev idle : Keyboard
idle = record {
  shift = false;
  ctl = false;
  alt = false;
  caps = false;
  num = false;
  scroll = false;
  escaped = false;
}

-- Shift down, A, right control down, shift up, caps lock down and up
abbrev typed_bytes : List ℕ
typed_bytes = 42 ∷ 30 ∷ 224 ∷ 29 ∷ 170 ∷ 58 ∷ 186 ∷ []

ctl_and_caps : kbd_bytes typed_bytes 0 ≡ 10
unfolding kbd_bytes kbd_data press release
ctl_and_caps = refl

-- The key A is "a" without shift, and with both shift and caps lock.
small_a : (kbd_data 30 0).char ≡ 97
unfolding kbd_data press
small_a = refl

caps_shift_a : (kbd_data 30 9).char ≡ 97
unfolding kbd_data press
caps_shift_a = refl

kbd_bytes_lem_example :
    let (es, escaped) = events false typed_bytes in
    kbd_bytes typed_bytes (code idle) ≡ code (after_events idle es escaped)
kbd_bytes_lem_example = kbd_bytes_lem typed_bytes idle (omega arith)
