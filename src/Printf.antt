-- ===== src/Printf.antt =====
-- Lab/code/printf.c and Lab/code/ulib.c: formatted output and the string functions of user programs.
-- Output is the list of the characters that are written. A string is the list of its characters up
-- to the NUL.
pub mod Numbers
use xmu_learning_os.Base.{
  Bool, List, Option, [], add32, false, if◌then◌else◌, leb, ltb, none, slt, some, sub32, suc, true,
  zero, ℕ, ◌%◌, ◌&&◌, ◌*◌, ◌++◌, ◌+◌, ◌-◌, ◌/◌, ◌==◌, ◌^◌, ◌||◌, ◌∷◌,
}

abbrev pub minus : ℕ
minus = 45

-- `digits[d]`
abbrev pub digit : ℕ → ℕ
digit d = if ltb d 10 then 48 + d else 55 + d

-- The loop of `printint`: what it puts into `buf`. A `uint` has 32 digits at most in any base.
unfoldable pub digits_of : ℕ → ℕ → ℕ → List ℕ
digits_of zero base x = []
digits_of (suc n) base x =
    let rest = digits_of n base (x / base) in
    digit (x % base) ∷ (if x / base == 0 then [] else rest)

-- `while(--i >= 0) putc(fd, buf[i]);`
unfoldable pub backwards : List ℕ → List ℕ
backwards [] = []
backwards (c ∷ cs) = backwards cs ++ c ∷ []

-- `buf` after the sign.
unfoldable pub int_buf : ℕ → ℕ → Bool → List ℕ
unfolding digits_of
int_buf xx base sgn =
    if sgn && slt xx 0 then digits_of 32 base (sub32 0 xx) ++ minus ∷ [] else digits_of 32 base xx

unfoldable pub printint : ℕ → ℕ → Bool → List ℕ
unfolding backwards int_buf
printint xx base sgn = backwards (int_buf xx base sgn)

-- "(null)"
abbrev pub null_text : List ℕ
null_text = 40 ∷ 110 ∷ 117 ∷ 108 ∷ 108 ∷ 41 ∷ []

-- The argument list is read past its end as zeros here.
abbrev pub arg : List ℕ → ℕ
arg [] = 0
arg (a ∷ args) = a

abbrev pub other_args : List ℕ → List ℕ
other_args [] = []
other_args (a ∷ args) = args

-- `printf`, where `string` is what stands at an address; `percent` tells whether the state is '%'.
unfoldable pub print_from : (ℕ → List ℕ) → Bool → List ℕ → List ℕ → List ℕ
unfolding printint
print_from string percent [] args = []
print_from string false (c ∷ fmt) args =
    let held = print_from string true fmt args in
    let plain = print_from string false fmt args in if c == 37 then held else c ∷ plain
print_from string true (c ∷ fmt) args =
    let same = print_from string false fmt args in
    let next_arg = print_from string false fmt (other_args args) in
    let a = arg args in
    if c == 100
    then printint a 10 true ++ next_arg
    else if (c == 120) || (c == 112)
    then printint a 16 false ++ next_arg
    else if c == 115
    then (if a == 0 then null_text else string a) ++ next_arg
    else if c == 99
    then a % 256 ∷ next_arg
    else if c == 37
    then c ∷ same
    else 37 ∷ c ∷ same

unfoldable pub printf : (ℕ → List ℕ) → List ℕ → List ℕ → List ℕ
unfolding print_from
printf string fmt args = print_from string false fmt args

-- `strcmp`, on characters as `uchar`.
unfoldable pub strcmp : List ℕ → List ℕ → ℕ
strcmp [] [] = 0
strcmp [] (d ∷ q) = sub32 0 d
strcmp (c ∷ p) [] = c
strcmp (c ∷ p) (d ∷ q) = let rest = strcmp p q in if c == d then rest else sub32 c d

-- `strchr`: what is from the character on.
unfoldable pub strchr : List ℕ → ℕ → Option (List ℕ)
strchr [] c = none
strchr (x ∷ s) c = let rest = strchr s c in if x == c then some (x ∷ s) else rest

-- `strlen` from `n` on; an `int` is the result.
unfoldable pub strlen : List ℕ → ℕ
strlen [] = 0
strlen (c ∷ s) = add32 (strlen s) 1

abbrev pub is_digit : ℕ → Bool
is_digit c = leb 48 c && leb c 57

-- The loop of `atoi` with the number so far, an `int`.
unfoldable pub atoi_from : ℕ → List ℕ → ℕ
atoi_from n [] = n
atoi_from n (c ∷ s) =
    let rest = atoi_from ((n * 10 + c + 2 ^ 32 - 48) % 2 ^ 32) s in if is_digit c then rest else n

unfoldable pub atoi : List ℕ → ℕ
unfolding atoi_from
atoi s = atoi_from 0 s

-- `gets(buf, max)`: the line and what is left of the input, with `n` characters left to read.
unfoldable pub gets_from : ℕ → List ℕ → List ℕ × List ℕ
gets_from zero input = ([], input)
gets_from (suc n) [] = ([], [])
gets_from (suc n) (c ∷ input) =
    let more = gets_from n input in
    if (c == 10) || (c == 13) then (c ∷ [], input) else (c ∷ more.0, more.1)

unfoldable pub gets_line : ℕ → List ℕ → List ℕ × List ℕ
unfolding gets_from
gets_line max input = gets_from (max - 1) input
