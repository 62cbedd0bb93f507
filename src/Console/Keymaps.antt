-- ===== src/Console/Keymaps.antt =====
-- The tables of the keyboard driver of kern/console.c. What a table does not name is 0.
use arch.Base.{ℕ, zero, suc, ◌==◌, List, [], ◌∷◌, if◌then◌else◌, ltb}

-- `shiftcode`: the modifier of a key
abbrev pub shiftcode : List (ℕ × ℕ)
shiftcode = (29, 2) ∷ (42, 1) ∷ (54, 1) ∷ (56, 4) ∷ (157, 2) ∷ (184, 4) ∷ []

-- `togglecode`
abbrev pub togglecode : List (ℕ × ℕ)
togglecode = (58, 8) ∷ (69, 16) ∷ (70, 32) ∷ []

-- The entries from 0x80 on of `normalmap` and of `shiftmap`
abbrev pub keypad : List (ℕ × ℕ)
keypad =
    (199, 224)
    ∷ (156, 10)
    ∷ (181, 47)
    ∷ (200, 226)
    ∷ (201, 230)
    ∷ (203, 228)
    ∷ (205, 229)
    ∷ (207, 225)
    ∷ (208, 227)
    ∷ (209, 231)
    ∷ (210, 232)
    ∷ (211, 233)
    ∷ []

-- The entries from 0x80 on of `ctlmap`
abbrev pub ctl_keypad : List (ℕ × ℕ)
ctl_keypad =
    (151, 224)
    ∷ (181, 239)
    ∷ (200, 226)
    ∷ (201, 230)
    ∷ (203, 228)
    ∷ (205, 229)
    ∷ (207, 225)
    ∷ (208, 227)
    ∷ (209, 231)
    ∷ (210, 232)
    ∷ (211, 233)
    ∷ []

-- The first 0x58 entries of `normalmap`
abbrev pub normalmap : List ℕ
normalmap =
    0 ∷ 27 ∷ 49 ∷ 50 ∷ 51 ∷ 52 ∷ 53 ∷ 54 ∷ 55 ∷ 56 ∷ 57 ∷ 48 ∷ 45 ∷ 61 ∷ 8 ∷ 9 ∷ 113 ∷ 119 ∷ 101
    ∷ 114 ∷ 116 ∷ 121 ∷ 117 ∷ 105 ∷ 111 ∷ 112 ∷ 91 ∷ 93 ∷ 10 ∷ 0 ∷ 97 ∷ 115 ∷ 100 ∷ 102 ∷ 103 ∷ 104
    ∷ 106 ∷ 107 ∷ 108 ∷ 59 ∷ 39 ∷ 96 ∷ 0 ∷ 92 ∷ 122 ∷ 120 ∷ 99 ∷ 118 ∷ 98 ∷ 110 ∷ 109 ∷ 44 ∷ 46 ∷ 47
    ∷ 0 ∷ 42 ∷ 0 ∷ 32 ∷ 0 ∷ 0 ∷ 0 ∷ 0 ∷ 0 ∷ 0 ∷ 0 ∷ 0 ∷ 0 ∷ 0 ∷ 0 ∷ 0 ∷ 0 ∷ 55 ∷ 56 ∷ 57 ∷ 45 ∷ 52
    ∷ 53 ∷ 54 ∷ 43 ∷ 49 ∷ 50 ∷ 51 ∷ 48 ∷ 46 ∷ 0 ∷ 0 ∷ 0 ∷ 0 ∷ []

-- The first 0x58 entries of `shiftmap`
abbrev pub shiftmap : List ℕ
shiftmap =
    0 ∷ 27 ∷ 33 ∷ 64 ∷ 35 ∷ 36 ∷ 37 ∷ 94 ∷ 38 ∷ 42 ∷ 40 ∷ 41 ∷ 95 ∷ 43 ∷ 8 ∷ 9 ∷ 81 ∷ 87 ∷ 69 ∷ 82
    ∷ 84 ∷ 89 ∷ 85 ∷ 73 ∷ 79 ∷ 80 ∷ 123 ∷ 125 ∷ 10 ∷ 0 ∷ 65 ∷ 83 ∷ 68 ∷ 70 ∷ 71 ∷ 72 ∷ 74 ∷ 75 ∷ 76
    ∷ 58 ∷ 34 ∷ 126 ∷ 0 ∷ 124 ∷ 90 ∷ 88 ∷ 67 ∷ 86 ∷ 66 ∷ 78 ∷ 77 ∷ 60 ∷ 62 ∷ 63 ∷ 0 ∷ 42 ∷ 0 ∷ 32
    ∷ 0 ∷ 0 ∷ 0 ∷ 0 ∷ 0 ∷ 0 ∷ 0 ∷ 0 ∷ 0 ∷ 0 ∷ 0 ∷ 0 ∷ 0 ∷ 55 ∷ 56 ∷ 57 ∷ 45 ∷ 52 ∷ 53 ∷ 54 ∷ 43 ∷ 49
    ∷ 50 ∷ 51 ∷ 48 ∷ 46 ∷ 0 ∷ 0 ∷ 0 ∷ 0 ∷ []

-- The first 0x38 entries of `ctlmap`, as bytes
abbrev pub ctlmap : List ℕ
ctlmap =
    0 ∷ 0 ∷ 0 ∷ 0 ∷ 0 ∷ 0 ∷ 0 ∷ 0 ∷ 0 ∷ 0 ∷ 0 ∷ 0 ∷ 0 ∷ 0 ∷ 0 ∷ 0 ∷ 17 ∷ 23 ∷ 5 ∷ 18 ∷ 20 ∷ 25 ∷ 21
    ∷ 9 ∷ 15 ∷ 16 ∷ 0 ∷ 0 ∷ 13 ∷ 0 ∷ 1 ∷ 19 ∷ 4 ∷ 6 ∷ 7 ∷ 8 ∷ 10 ∷ 11 ∷ 12 ∷ 0 ∷ 0 ∷ 0 ∷ 0 ∷ 28 ∷ 26
    ∷ 24 ∷ 3 ∷ 22 ∷ 2 ∷ 14 ∷ 13 ∷ 0 ∷ 0 ∷ 239 ∷ 0 ∷ 0 ∷ []

abbrev pub entry_at : List (ℕ × ℕ) → (i : ℕ) → ℕ
entry_at [] i = 0
entry_at ((j, v) ∷ es) i = if i == j then v else entry_at es i

abbrev pub nth : List ℕ → (i : ℕ) → ℕ
nth [] i = 0
nth (v ∷ vs) zero = v
nth (v ∷ vs) (suc i) = nth vs i

-- `charcode[modifiers]`, for `modifiers` below 4
abbrev pub charcode : (modifiers i : ℕ) → ℕ
charcode zero i = if ltb i 128 then nth normalmap i else entry_at keypad i
charcode (suc zero) i = if ltb i 128 then nth shiftmap i else entry_at keypad i
charcode (suc (suc _)) i = if ltb i 128 then nth ctlmap i else entry_at ctl_keypad i
