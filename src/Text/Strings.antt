-- ===== src/Text/Strings.antt =====
-- The functions of lib/string.c on strings and memory, less `memset` and `memmove`, whose bodies
-- in use are machine instructions.
use arch.Base.{
  ℕ, zero, suc, ◌+◌, ◌-◌, ◌%◌, ◌&&◌, not, Option, none, some, List, [], ◌∷◌, ◌==◌, if◌then◌else◌,
}
use arch.Kern.Layout.{u32}
use mathlib.Core.Option as Option

unfoldable pub strlen : List ℕ → Option ℕ
strlen [] = none
strlen (c ∷ s) = let n = strlen s in if c == 0 then some 0 else Option.map suc n

unfoldable pub strnlen : List ℕ → (size : ℕ) → Option ℕ
strnlen s zero = some 0
strnlen [] (suc size) = none
strnlen (c ∷ s) (suc size) = let n = strnlen s size in if c == 0 then some 0 else Option.map suc n

-- The object at `dst` afterwards.
unfoldable pub strcpy : (dst src : List ℕ) → Option (List ℕ)
strcpy [] src = none
strcpy (d ∷ dst) [] = none
strcpy (d ∷ dst) (c ∷ src) =
    let rest = strcpy dst src in if c == 0 then some (0 ∷ dst) else Option.map (λ r. c ∷ r) rest

-- `strcpy` at the end of the string in `dst`.
unfoldable pub strcat : (dst src : List ℕ) → Option (List ℕ)
strcat [] src = none
strcat (d ∷ dst) src =
    let rest = strcat dst src in
    let here = strcpy (d ∷ dst) src in if d == 0 then here else Option.map (λ r. d ∷ r) rest

unfoldable pub strncpy : (dst src : List ℕ) → (size : ℕ) → Option (List ℕ)
strncpy dst src zero = some dst
strncpy [] src (suc size) = none
strncpy (d ∷ dst) [] (suc size) = none
strncpy (d ∷ dst) (c ∷ src) (suc size) =
    let stay = strncpy dst (c ∷ src) size in
    let on = strncpy dst src size in Option.map (λ r. c ∷ r) (if c == 0 then stay else on)

-- `*dst = '\0'`
unfoldable pub terminate : List ℕ → Option (List ℕ)
terminate [] = none
terminate (d ∷ dst) = some (0 ∷ dst)

-- The loop of `strlcpy` and the store behind it, with the bytes that may still be copied; the number
-- of bytes copied, and the object at `dst`.
unfoldable pub copy_bytes : (size : ℕ) → (dst src : List ℕ) → Option (ℕ × List ℕ)
copy_bytes zero dst src = Option.map (λ r. (0, r)) (terminate dst)
copy_bytes (suc size) dst [] = none
copy_bytes (suc size) [] (c ∷ src) = none
copy_bytes (suc size) (d ∷ dst) (c ∷ src) =
    let rest = copy_bytes size dst src in
    if c == 0 then some (0, 0 ∷ dst) else Option.map (λ r. (suc r.0, c ∷ r.1)) rest

unfoldable pub strlcpy : (dst src : List ℕ) → (size : ℕ) → Option (ℕ × List ℕ)
strlcpy dst src zero = some (0, dst)
strlcpy dst src (suc size) = copy_bytes size dst src

-- `(int) ((unsigned char) *p - (unsigned char) *q)`
abbrev pub byte_diff : ℕ → ℕ → ℕ
byte_diff p q = (p + u32 - q) % u32

unfoldable pub strcmp : List ℕ → List ℕ → Option ℕ
strcmp [] q = none
strcmp (a ∷ p) [] = none
strcmp (a ∷ p) (b ∷ q) =
    let rest = strcmp p q in if not (a == 0) && (a == b) then rest else some (byte_diff a b)

unfoldable pub strncmp : List ℕ → List ℕ → (n : ℕ) → Option ℕ
strncmp p q zero = some 0
strncmp [] q (suc n) = none
strncmp (a ∷ p) [] (suc n) = none
strncmp (a ∷ p) (b ∷ q) (suc n) =
    let rest = strncmp p q n in if not (a == 0) && (a == b) then rest else some (byte_diff a b)

-- The offset of the byte found, or `none` inside for NULL.
unfoldable pub strchr : List ℕ → (c : ℕ) → Option (Option ℕ)
strchr [] c = none
strchr (a ∷ s) c =
    let rest = strchr s c in
    if a == 0 then some none else if a == c then some (some 0) else Option.map (Option.map suc) rest

unfoldable pub strfind : List ℕ → (c : ℕ) → Option ℕ
strfind [] c = none
strfind (a ∷ s) c =
    let rest = strfind s c in
    if a == 0 then some 0 else if a == c then some 0 else Option.map suc rest

unfoldable pub memcmp : List ℕ → List ℕ → (n : ℕ) → Option ℕ
memcmp v1 v2 zero = some 0
memcmp [] v2 (suc n) = none
memcmp (a ∷ v1) [] (suc n) = none
memcmp (a ∷ v1) (b ∷ v2) (suc n) =
    let rest = memcmp v1 v2 n in if a == b then rest else some (byte_diff a b)

unfoldable pub memfind : List ℕ → (c n : ℕ) → Option ℕ
memfind s c zero = some 0
memfind [] c (suc n) = none
memfind (a ∷ s) c (suc n) =
    let rest = memfind s c n in if a == c % 256 then some 0 else Option.map suc rest
