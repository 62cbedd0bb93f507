-- ===== src/Console/Keyboard/Modifiers.antt =====
-- Which modifiers `kbd_proc_data` of kern/console.c takes for held.
use Prim.Native.Nat.{bit_and, bit_or}
use arch.Base.{
  ℕ, ◌+◌, ◌-◌, ◌<◌, ◌≡◌, refl, ◌∙◌, ap, subst, ◌==◌, Bool, true, false, ◌||◌, List, [], ◌∷◌,
  if◌then◌else◌, leb, arith, Bool-cases, inl, inr,
}
use arch.Console.Keymaps.{shiftcode, entry_at}
use arch.Console.Keyboard.{e0esc, is_set, clear, Key, press, release, kbd_data, kbd_bytes}
use arch.Console.Keyboard.Spec.{
  Keyboard, code, pressed, released, events, after_events, after_byte, AllBytes, is_shift, is_ctl,
  is_alt,
}
use arch.Console.Keyboard.Bits.{
  or_held, xor_locks, clear_held, or_escape, clear_escape, is_escaped, modifier, lock, high_bit,
  low_bits, with_high_bit,
}

abbrev Shifts : Key → Keyboard → Type 0
Shifts s k = s.shift ≡ code k

press-Shifts :
    (key : ℕ) (k : Keyboard)
    → key < 256
    → Shifts (press key (code k)) (after_events k (pressed key ∷ []) k.escaped)
unfolding press
press-Shifts key k lt =
    rw (modifier key lt, lock key lt)
      (rw
        (or_held k.shift k.ctl k.alt k.caps k.num k.scroll k.escaped (is_shift key) (is_ctl key)
          (is_alt key))
        (xor_locks (is_shift key || k.shift) (is_ctl key || k.ctl) (is_alt key || k.alt) k.caps
          k.num k.scroll k.escaped (key == 58) (key == 69) (key == 70)))

escaped-code : (k : Keyboard) → is_set (code k) e0esc ≡ k.escaped
escaped-code k = is_escaped k.shift k.ctl k.alt k.caps k.num k.scroll k.escaped

release-Shifts :
    (d : ℕ) (k : Keyboard)
    → d < 256
    → leb 128 d ≡ true
    → Shifts
        (release d (code k))
        (after_events k (released (if k.escaped then d else d - 128) ∷ []) false)
unfolding release
release-Shifts d k lt high =
    ap (λ i. clear (code k) (bit_or (entry_at shiftcode i) e0esc)) is_key
    ∙ ap (λ m. clear (code k) (bit_or m e0esc)) (modifier key small)
    ∙ clear_held k.shift k.ctl k.alt k.caps k.num k.scroll k.escaped (is_shift key) (is_ctl key)
        (is_alt key)
  where
    key : ℕ
    key = if k.escaped then d else d - 128

    is_key : (if is_set (code k) e0esc then d else bit_and d 127) ≡ key
    is_key = rw (escaped-code k, low_bits d lt high) refl

    small : key < 256
    small = elim (Bool-cases k.escaped) [ inl e ↦ rw e lt | inr e ↦ rw e (omega arith) ]

-- A press, with or without a prefix before it.
prefixed_press-Shifts :
    (d : ℕ) (k : Keyboard) (escaped : Bool)
    → d < 256
    → leb 128 d ≡ false
    → k.escaped ≡ escaped
    → Shifts
        (if escaped then press (bit_or d 128) (clear (code k) e0esc) else press d (code k))
        (after_events k (pressed (if escaped then d + 128 else d) ∷ []) false)
prefixed_press-Shifts d k true lt low e =
    let plain : Keyboard = record k { escaped = false } in
    ap (λ x. (press x (clear (code k) e0esc)).shift) (with_high_bit d lt low)
    ∙ ap (λ w. (press (d + 128) w).shift)
        (clear_escape k.shift k.ctl k.alt k.caps k.num k.scroll k.escaped)
    ∙ press-Shifts (d + 128) plain (ground arith)
prefixed_press-Shifts d k false lt low e =
    subst (λ x. Shifts (press d (code k)) (after_events k (pressed d ∷ []) x)) e
      (press-Shifts d k lt)

kbd_data-Shifts : (d : ℕ) (k : Keyboard) → d < 256 → Shifts (kbd_data d (code k)) (after_byte d k)
unfolding kbd_data
kbd_data-Shifts d k lt = elim (Bool-cases (d == 224)) [
  | inl prefix ↦ rw prefix (or_escape k.shift k.ctl k.alt k.caps k.num k.scroll k.escaped)
  | inr key ↦ elim (Bool-cases (leb 128 d)) [
    | inl up ↦ rw (key, high_bit d lt, up) (release-Shifts d k lt up)
    | inr down ↦
        rw (key, high_bit d lt, down, escaped-code k)
          (prefixed_press-Shifts d k k.escaped lt down refl)
  ]
]

-- Behind one byte, the rest of the bytes mean what they mean for the keyboard after it.
abbrev after_all : List ℕ → Keyboard → Keyboard
after_all ds k = let (es, escaped) = events k.escaped ds in after_events k es escaped

after_all-after_byte :
    (d : ℕ) (ds : List ℕ) (k : Keyboard) → after_all ds (after_byte d k) ≡ after_all (d ∷ ds) k
after_all-after_byte d ds k = elim (Bool-cases (d == 224)) [
  | inl prefix ↦ rw (prefix) refl
  | inr key ↦ elim (Bool-cases (leb 128 d)) [
    | inl up ↦ rw (key, up) refl
    | inr down ↦ rw (key, down) refl
  ]
]

-- After any bytes of a keyboard `shift` tells SHIFT, CTL and ALT held exactly if the last event of one of the
-- modifier's keys was a press, CAPSLOCK, NUMLOCK and SCROLLLOCK on exactly if their keys were pressed
-- an odd number of times more, and whether a prefix 0xE0 came last; it starts from any such state.
pub kbd_bytes_lem :
    (ds : List ℕ) (k : Keyboard)
    → AllBytes ds
    → let (es, escaped) = events k.escaped ds in
      kbd_bytes ds (code k) ≡ code (after_events k es escaped)
unfolding kbd_bytes
kbd_bytes_lem [] k all = refl
kbd_bytes_lem (d ∷ ds) k (lt, all) =
    ap (λ w. kbd_bytes ds w) (kbd_data-Shifts d k lt)
    ∙ kbd_bytes_lem ds (after_byte d k) all
    ∙ ap code (after_all-after_byte d ds k)
