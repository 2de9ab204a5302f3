-- ===== src/TestPool/Decimal.antt =====
-- The decimal numbers of Rust's `Display` and `FromStr`, as the source uses them in the names of nodes
-- and for the size of the pool.
use binderbinder.Base.{
  ℕ, zero, suc, ◌+◌, ◌-◌, ◌*◌, ◌/◌, ◌%◌, ◌<◌, ◌≡◌, Option, none, some, List, [], ◌∷◌, ◌==◌, ◌++◌,
  ltb, leb, ◌&&◌, if◌then◌else◌, arith, Bool-cases, inl, inr,
}
use binderbinder.Base.Words.{usize_mod}
use native.Mathlib.Decide.{dec_lt}

-- The digits of a number, by its tens: fuel `n` is enough, since each turn divides by ten.
unfoldable pub digits : ℕ → ℕ → List ℕ
digits zero n = []
digits (suc fuel) n =
    let rest = digits fuel (n / 10) in
    if ltb n 10 then (48 + n) ∷ [] else rest ++ ((48 + n % 10) ∷ [])

abbrev pub display : ℕ → List ℕ
display n = digits (suc n) n

-- A digit at a time, on a value that has to stay below 2^64.
unfoldable pub parse_digits : List ℕ → ℕ → Option ℕ
parse_digits [] acc = some acc
parse_digits (c ∷ cs) acc =
    let next = acc * 10 + (c - 48) in
    let rest = parse_digits cs next in
    if leb 48 c && leb c 57 && ltb next usize_mod then rest else none

-- `s.parse::<usize>()`: a plus sign may lead, and there is a digit at least.
unfoldable pub parse : List ℕ → Option ℕ
parse [] = none
parse (c ∷ []) = parse_digits (c ∷ []) 0
parse (c ∷ (d ∷ cs)) = if c == 43 then parse_digits (d ∷ cs) 0 else parse_digits (c ∷ (d ∷ cs)) 0

parse_digits-append :
    (cs : List ℕ) (acc d n : ℕ)
    → parse_digits cs acc ≡ some n
    → d < 10
    → n * 10 + d < usize_mod
    → parse_digits (cs ++ ((48 + d) ∷ [])) acc ≡ some (n * 10 + d)
unfolding parse_digits
parse_digits-append [] acc d n h small fits = ground (arith, h)
parse_digits-append (c ∷ cs) acc d n h small fits =
    let rest = λ (e : parse_digits cs (acc * 10 + (c - 48)) ≡ some n).
      parse_digits-append cs (acc * 10 + (c - 48)) d n e small fits in
    ground (arith, rest)

parse_digits-digits :
    (fuel n : ℕ) → n < fuel → n < usize_mod → parse_digits (digits fuel n) 0 ≡ some n
unfolding digits parse_digits
parse_digits-digits zero n h fits = ground arith
parse_digits-digits (suc fuel) n h fits =
    let before = parse_digits-digits fuel (n / 10) in
    elim (dec_lt n 10) [
      | yes small ↦ ground arith
      | no big ↦ ground (
        arith,
        before (omega arith) (omega arith),
        parse_digits-append (digits fuel (n / 10)) 0 (n % 10) (n / 10)
            (before (omega arith) (omega arith)) (omega arith) (omega arith),
      )
    ]

-- A number that is read digit by digit has no sign before it.
parse-digits :
    (cs : List ℕ) (c n : ℕ)
    → parse_digits (cs ++ (c ∷ [])) 0 ≡ some n
    → parse (cs ++ (c ∷ [])) ≡ some n
unfolding parse_digits parse
parse-digits [] c n h = h
parse-digits (b ∷ []) c n h = ground (arith, h)
parse-digits (b ∷ (d ∷ cs)) c n h = ground (arith, h)

pub parse-display : (n : ℕ) → n < usize_mod → parse (display n) ≡ some n
unfolding digits
parse-display n fits =
    let read : parse_digits (display n) 0 ≡ some n =
      parse_digits-digits (suc n) n (omega arith) fits in
    elim (Bool-cases (ltb n 10)) [
      | inl small ↦ rw small (parse-digits [] (48 + n) n (rw small at read))
      | inr big ↦ rw big (parse-digits (digits n (n / 10)) (48 + n % 10) n (rw big at read))
    ]
