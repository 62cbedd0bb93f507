-- ===== src/Console/Keyboard/Bits.antt =====
-- The bits of the keyboard driver's words, by trying them all.
use Prim.Native.Nat.{bit_and, bit_or, bit_xor}
use arch.Base.{
  ℕ, ◌+◌, ◌-◌, ◌<◌, ◌≡◌, refl, ◌==◌, ==_iff, Bool, true, false, ◌&&◌, ◌||◌, not, if◌then◌else◌, leb,
}
use arch.Base.Trials.{all_below-at, Test, Fact, passes-Fact}
use arch.Console.Keymaps.{shiftcode, togglecode, entry_at}
use arch.Console.Keyboard.{e0esc, is_set, clear}
use arch.Console.Keyboard.Spec.{bit, word, is_shift, is_ctl, is_alt}

abbrev equal : Bool → Bool → Bool
equal true b = b
equal false b = not b

equal_eq : (a b : Bool) → equal a b ≡ true → a ≡ b
equal_eq true true e = refl
equal_eq true false e = absurd (cc e)
equal_eq false true e = absurd (cc e)
equal_eq false false e = refl

abbrev pub flip : (flips before : Bool) → Bool
flip flips before = if flips then not before else before

pub or_held :
    (a b c d e f g x y z : Bool)
    → bit_or (word a b c d e f g) (bit x 1 + bit y 2 + bit z 4)
      ≡ word (x || a) (y || b) (z || c) d e f g
or_held a b c d e f g x y z = (==_iff _ _).0 (tried a b c d e f g x y z)
  where
    test : Test 10
    test a b c d e f g x y z =
        bit_or (word a b c d e f g) (bit x 1 + bit y 2 + bit z 4)
        == word (x || a) (y || b) (z || c) d e f g

    tried : Fact 10 test
    tried = passes-Fact 10 test refl

pub xor_locks :
    (a b c d e f g x y z : Bool)
    → bit_xor (word a b c d e f g) (bit x 8 + bit y 16 + bit z 32)
      ≡ word a b c (flip x d) (flip y e) (flip z f) g
xor_locks a b c d e f g x y z = (==_iff _ _).0 (tried a b c d e f g x y z)
  where
    test : Test 10
    test a b c d e f g x y z =
        bit_xor (word a b c d e f g) (bit x 8 + bit y 16 + bit z 32)
        == word a b c (flip x d) (flip y e) (flip z f) g

    tried : Fact 10 test
    tried = passes-Fact 10 test refl

pub clear_held :
    (a b c d e f g x y z : Bool)
    → clear (word a b c d e f g) (bit_or (bit x 1 + bit y 2 + bit z 4) e0esc)
      ≡ word (not x && a) (not y && b) (not z && c) d e f false
clear_held a b c d e f g x y z = (==_iff _ _).0 (tried a b c d e f g x y z)
  where
    test : Test 10
    test a b c d e f g x y z =
        clear (word a b c d e f g) (bit_or (bit x 1 + bit y 2 + bit z 4) e0esc)
        == word (not x && a) (not y && b) (not z && c) d e f false

    tried : Fact 10 test
    tried = passes-Fact 10 test refl

pub or_escape : (a b c d e f g : Bool) → bit_or (word a b c d e f g) e0esc ≡ word a b c d e f true
or_escape a b c d e f g = (==_iff _ _).0 (tried a b c d e f g)
  where
    test : Test 7
    test a b c d e f g = bit_or (word a b c d e f g) e0esc == word a b c d e f true

    tried : Fact 7 test
    tried = passes-Fact 7 test refl

pub clear_escape :
    (a b c d e f g : Bool) → clear (word a b c d e f g) e0esc ≡ word a b c d e f false
clear_escape a b c d e f g = (==_iff _ _).0 (tried a b c d e f g)
  where
    test : Test 7
    test a b c d e f g = clear (word a b c d e f g) e0esc == word a b c d e f false

    tried : Fact 7 test
    tried = passes-Fact 7 test refl

pub is_escaped : (a b c d e f g : Bool) → is_set (word a b c d e f g) e0esc ≡ g
is_escaped a b c d e f g = equal_eq _ _ (tried a b c d e f g)
  where
    test : Test 7
    test a b c d e f g = equal (is_set (word a b c d e f g) e0esc) g

    tried : Fact 7 test
    tried = passes-Fact 7 test refl

pub modifier :
    (key : ℕ)
    → key < 256
    → entry_at shiftcode key ≡ bit (is_shift key) 1 + bit (is_ctl key) 2 + bit (is_alt key) 4
modifier key lt = (==_iff _ _).0 (all_below-at 256 test refl key lt)
  where
    test : ℕ → Bool
    test i = entry_at shiftcode i == bit (is_shift i) 1 + bit (is_ctl i) 2 + bit (is_alt i) 4

pub lock :
    (key : ℕ)
    → key < 256
    → entry_at togglecode key ≡ bit (key == 58) 8 + bit (key == 69) 16 + bit (key == 70) 32
lock key lt = (==_iff _ _).0 (all_below-at 256 test refl key lt)
  where
    test : ℕ → Bool
    test i = entry_at togglecode i == bit (i == 58) 8 + bit (i == 69) 16 + bit (i == 70) 32

pub high_bit : (d : ℕ) → d < 256 → is_set d 128 ≡ leb 128 d
high_bit d lt = equal_eq _ _ (all_below-at 256 (λ i. equal (is_set i 128) (leb 128 i)) refl d lt)

pub low_bits : (d : ℕ) → d < 256 → leb 128 d ≡ true → bit_and d 127 ≡ d - 128
low_bits d lt high = (==_iff _ _).0 (rw (← choose) (all_below-at 256 test refl d lt))
  where
    test : ℕ → Bool
    test i = if leb 128 i then bit_and i 127 == i - 128 else true

    choose : test d ≡ (bit_and d 127 == d - 128)
    choose = rw high refl

pub with_high_bit : (d : ℕ) → d < 256 → leb 128 d ≡ false → bit_or d 128 ≡ d + 128
with_high_bit d lt low = (==_iff _ _).0 (rw (← choose) (all_below-at 256 test refl d lt))
  where
    test : ℕ → Bool
    test i = if leb 128 i then true else bit_or i 128 == i + 128

    choose : test d ≡ (bit_or d 128 == d + 128)
    choose = rw low refl
