-- ===== src/Text/Format/Fuel.antt =====
-- `vprintfmt` of lib/printfmt.c comes to an end.
use arch.Base.{
  ℕ, zero, suc, ◌+◌, ◌-◌, ◌*◌, ◌^◌, ◌≤◌, ◌<◌, ◌≢◌, Bool, true, false, Option, none, some, List, [],
  ◌∷◌, ◌&&◌, not, ◌==◌, if◌then◌else◌, leb, length, arith, subst,
}
use arch.Text.Format.{
  Arg, word, long_long, string, Spec, Escape, put, literal, undefined, Printed, chars, missing,
  out_of_rounds, convert, flag, escape, prepend, after, print_format, vprintfmt, fresh_spec,
  process_precision, is_digit, put_error, put_string, on_word, on_string, null_text, getuint,
  getint, put_number,
}

-- What is left of the format behind an escape sequence is at most `n` characters.
Leaves : ℕ → Escape → Type 0
Leaves n (put out rest args) = length rest ≤ n
Leaves n (literal args) = Unit {0}
Leaves n undefined = Unit {0}

Leaves-if :
    (n : ℕ) (b : Bool) (x y : Escape) → Leaves n x → Leaves n y → Leaves n (if b then x else y)
Leaves-if n true x y h h' = h
Leaves-if n false x y h h' = h'

getuint-Leaves :
    (n base : ℕ) (s : Spec) (rest : List ℕ) (args : List Arg)
    → length rest ≤ n
    → Leaves n (getuint base s rest args)
unfolding Leaves
getuint-Leaves n base s rest [] h = tt
getuint-Leaves n base s rest (word v ∷ args) h = Leaves-if n (leb 2 s.lflag) _ _ tt h
getuint-Leaves n base s rest (long_long v ∷ args) h = Leaves-if n (leb 2 s.lflag) _ _ h tt
getuint-Leaves n base s rest (string v ∷ args) h = tt

getint-Leaves :
    (n : ℕ) (s : Spec) (rest : List ℕ) (args : List Arg)
    → length rest ≤ n
    → Leaves n (getint s rest args)
unfolding Leaves
getint-Leaves n s rest [] h = tt
getint-Leaves n s rest (word v ∷ args) h =
    Leaves-if n (leb 2 s.lflag) _ _ tt (Leaves-if n (leb (2 ^ 31) v) _ _ h h)
getint-Leaves n s rest (long_long v ∷ args) h =
    Leaves-if n (leb 2 s.lflag && not (v == 2 ^ 63)) _ _ (Leaves-if n (leb (2 ^ 63) v) _ _ h h) tt
getint-Leaves n s rest (string v ∷ args) h = tt

on_word-Leaves :
    (n : ℕ) (f : ℕ → List Arg → Escape) (args : List Arg)
    → ((v : ℕ) (more : List Arg) → Leaves n (f v more))
    → Leaves n (on_word f args)
unfolding Leaves
on_word-Leaves n f [] h = tt
on_word-Leaves n f (word v ∷ args) h = h v args
on_word-Leaves n f (long_long v ∷ args) h = tt
on_word-Leaves n f (string v ∷ args) h = tt

on_string-Leaves :
    (n : ℕ) (f : List ℕ → List Arg → Escape) (args : List Arg)
    → ((p : List ℕ) (more : List Arg) → Leaves n (f p more))
    → Leaves n (on_string f args)
unfolding Leaves
on_string-Leaves n f [] h = tt
on_string-Leaves n f (word v ∷ args) h = tt
on_string-Leaves n f (long_long v ∷ args) h = tt
on_string-Leaves n f (string none ∷ args) h = h null_text args
on_string-Leaves n f (string (some p) ∷ args) h = h p args

put-Leaves :
    (n : ℕ) (out rest : List ℕ) (args : List Arg) → length rest ≤ n → Leaves n (put out rest args)
unfolding Leaves
put-Leaves n out rest args h = h

literal-Leaves : (n : ℕ) (args : List Arg) → Leaves n (literal args)
unfolding Leaves
literal-Leaves n args = tt

undefined-Leaves : (n : ℕ) → Leaves n undefined
unfolding Leaves
undefined-Leaves n = tt

convert-Leaves :
    (n ch : ℕ) (s : Spec) (rest : List ℕ) (args : List Arg)
    → length rest ≤ n
    → Leaves n (convert ch s rest args)
unfolding convert
convert-Leaves n ch s rest args h =
    let int = on_word-Leaves n in
    Leaves-if n (ch == 99) _ _ (int _ args (λ v more. put-Leaves n (v ∷ []) rest more h)) (
      Leaves-if n (ch == 101) _ _
        (int _ args (λ v more.
          Leaves-if n (v == 2 ^ 31) _ _ (undefined-Leaves n)
            (put-Leaves n (put_error v) rest more h)))
        (Leaves-if n (ch == 115) _ _
          (on_string-Leaves n _ args (λ p more. put-Leaves n (put_string s p) rest more h))
          (Leaves-if n (ch == 100) _ _ (getint-Leaves n s rest args h) (
            Leaves-if n (ch == 117) _ _ (getuint-Leaves n 10 s rest args h) (
              Leaves-if n (ch == 111) _ _ (getuint-Leaves n 8 s rest args h) (
                Leaves-if n (ch == 112) _ _
                  (int (λ v. put_number 16 v s (48 ∷ 120 ∷ []) rest) args
                    (λ v more. put-Leaves n _ rest more h))
                  (Leaves-if n (ch == 120) _ _ (getuint-Leaves n 16 s rest args h) (
                    Leaves-if n (ch == 37) _ _ (put-Leaves n (37 ∷ []) rest args h)
                      (literal-Leaves n args)))))))))

flag-Leaves :
    (n ch : ℕ) (s : Spec) (rest : List ℕ) (args : List Arg) (next : Spec → List Arg → Escape)
    (number : ℕ → Escape)
    → length rest ≤ n
    → ((s : Spec) (args : List Arg) → Leaves n (next s args))
    → ((d : ℕ) → Leaves n (number d))
    → Leaves n (flag ch s rest args next number)
flag-Leaves n ch s rest args next number h on_next on_number =
    Leaves-if n (ch == 45) _ _ (on_next _ args) (
      Leaves-if n (ch == 48) _ _ (on_next _ args) (
        Leaves-if n (is_digit ch) _ _ (on_number _) (
          Leaves-if n (ch == 42) _ _ (on_word-Leaves n _ args (λ v more. on_next _ more)) (
            Leaves-if n (ch == 46) _ _ (on_next _ args) (
              Leaves-if n (ch == 35) _ _ (on_next _ args) (
                Leaves-if n (ch == 108) _ _ (on_next _ args)
                  (convert-Leaves n ch s rest args h)))))))

escape-Leaves :
    (n : ℕ) (fmt : List ℕ) (number : Option ℕ) (s : Spec) (args : List Arg)
    → length fmt ≤ n
    → Leaves n (escape fmt number s args)
unfolding escape Leaves
escape-Leaves n [] number s args h = tt
escape-Leaves n (ch ∷ rest) none s args h =
    let le : length rest ≤ n = omega arith in
    flag-Leaves n ch s rest args _ _ le (λ t more. escape-Leaves n rest none t more le)
      (λ d. escape-Leaves n rest (some d) s args le)
escape-Leaves n (ch ∷ rest) (some m) s args h =
    let le : length rest ≤ n = omega arith in
    Leaves-if n (is_digit ch) _ _
      (Leaves-if n (leb (2 ^ 31) (m * 10 + ch)) _ _ tt
        (escape-Leaves n rest (some (m * 10 + (ch - 48))) s args le))
      (flag-Leaves n ch (process_precision (some m) s) rest args _ _ le
        (λ t more. escape-Leaves n rest none t more le)
        (λ d. escape-Leaves n rest (some d) (process_precision (some m) s) args le))

-- The run did not reach the model's bound.
Ended : Printed → Type 0
Ended (chars cs) = Unit {0}
Ended missing = Unit {0}
Ended out_of_rounds = ⊥

prepend-Ended : (out : List ℕ) (p : Printed) → Ended p → Ended (prepend out p)
unfolding Ended
prepend-Ended out (chars cs) h = tt
prepend-Ended out missing h = tt
prepend-Ended out out_of_rounds h = h

after-Ended :
    (go : List ℕ → List Arg → Printed) (rest : List ℕ) (e : Escape)
    → ((fmt : List ℕ) (args : List Arg) → length fmt ≤ length rest → Ended (go fmt args))
    → Leaves (length rest) e
    → Ended (after go rest e)
unfolding Ended Leaves
after-Ended go rest (put out fmt args) h le = prepend-Ended out (go fmt args) (h fmt args le)
after-Ended go rest (literal args) h le =
    prepend-Ended (37 ∷ []) (go rest args) (h rest args (omega arith))
after-Ended go rest undefined h le = tt

Ended-if : (b : Bool) (p q : Printed) → Ended p → Ended q → Ended (if b then p else q)
Ended-if true p q h h' = h
Ended-if false p q h h' = h'

print_format-Ended :
    (fuel : ℕ) (fmt : List ℕ) (args : List Arg)
    → length fmt < fuel
    → Ended (print_format fuel fmt args)
unfolding print_format Ended
print_format-Ended zero fmt args h = absurd (omega arith)
print_format-Ended (suc fuel) [] args h = tt
print_format-Ended (suc fuel) (c ∷ rest) args h =
    let go : (fmt : List ℕ) (args : List Arg)
        → length fmt ≤ length rest
        → Ended (print_format fuel fmt args) =
      λ fmt args le. print_format-Ended fuel fmt args (omega arith) in
    Ended-if (c == 37) _ _
      (after-Ended (print_format fuel) rest (escape rest none fresh_spec args) go
        (escape-Leaves (length rest) rest none fresh_spec args (omega arith)))
      (prepend-Ended (c ∷ []) (print_format fuel rest args) (go rest args (omega arith)))

-- `vprintfmt` ends on every format and every list of arguments: each round takes at least one
-- character of the format, so one round for each and one for its end are enough.
pub vprintfmt-ends : (fmt : List ℕ) (args : List Arg) → vprintfmt fmt args ≢ out_of_rounds
unfolding vprintfmt Ended
vprintfmt-ends fmt args e =
    subst Ended e (print_format-Ended (length fmt + 1) fmt args (omega arith))
