-- ===== src/Base/Text.antt =====
-- What the code uses of Go's strings, strconv and fmt: `+` on strings, strings.Join, and the
-- verbs %d and %q. %q escapes as strconv.Quote does; a character beyond ASCII is kept as it is.
use Prim.Native.Nat.{ℕ, zero, suc, ◌/◌, ◌%◌}
use Prim.Native.Char.{Char, code}
use Prim.Native.String
use Prim.Native.String.{String}
use mathlib.Core.Path.{◌≡◌, refl}
use mathlib.Core.Bool.{◌||◌}
use mathlib.Core.List.{List, [], ◌∷◌}
use odoo_k8_operator.Base.Tests.{ltb, ◌=ℕ◌, if◌then◌else◌}

-- `s + t` on strings; `++` is that of lists.
infixr 65 ◌⧺◌
abbrev pub ◌⧺◌ : String → String → String
s ⧺ t = String.◌++◌ s t

join_tail : String → List String → String
join_tail sep [] = ""
join_tail sep (x ∷ xs) = sep ⧺ x ⧺ join_tail sep xs

-- strings.Join
unfoldable pub join : String → List String → String
unfolding join_tail
join sep [] = ""
join sep (x ∷ xs) = x ⧺ join_tail sep xs

-- The digit of a number below 16.
pick : List String → ℕ → String
pick [] n = ""
pick (d ∷ ds) zero = d
pick (d ∷ ds) (suc n) = pick ds n

unfoldable pub digit : ℕ → String
unfolding pick
digit = pick (
    "0" ∷ "1" ∷ "2" ∷ "3" ∷ "4" ∷ "5" ∷ "6" ∷ "7" ∷ "8" ∷ "9" ∷ "a" ∷ "b" ∷ "c" ∷ "d" ∷ "e" ∷ "f"
    ∷ [])

-- A number has no more digits than its value and one.
decimal_from : ℕ → ℕ → String → String
unfolding digit
decimal_from zero n acc = acc
decimal_from (suc fuel) n acc =
    let shown = digit (n % 10) ⧺ acc in
    let rest = decimal_from fuel (n / 10) shown in if n / 10 =ℕ 0 then shown else rest

pub join_one : (sep x : String) → join sep (x ∷ []) ≡ x ⧺ ""
unfolding join
join_one sep x = refl

pub join_more :
    (sep x y : String) (ys : List String) → join sep (x ∷ y ∷ ys) ≡ x ⧺ sep ⧺ join sep (y ∷ ys)
unfolding join
join_more sep x y ys = refl

-- %d of a number that is not negative
unfoldable pub decimal : ℕ → String
unfolding decimal_from
decimal n = decimal_from (suc n) n ""

escape : Char → String
unfolding digit
escape c =
    let n = code c in
    if n =ℕ 34
    then "\\\""
    else if n =ℕ 92
    then "\\\\"
    else if n =ℕ 7
    then "\\a"
    else if n =ℕ 8
    then "\\b"
    else if n =ℕ 12
    then "\\f"
    else if n =ℕ 10
    then "\\n"
    else if n =ℕ 13
    then "\\r"
    else if n =ℕ 9
    then "\\t"
    else if n =ℕ 11
    then "\\v"
    else if ltb n 32 || n =ℕ 127
    then "\\x" ⧺ digit (n / 16) ⧺ digit (n % 16)
    else String.◌∷◌ c ""

escape_all : String → String
unfolding escape
escape_all String.[] = ""
escape_all (String.◌∷◌ c s) = escape c ⧺ escape_all s

-- %q
unfoldable pub quote : String → String
unfolding escape_all
quote s = "\"" ⧺ escape_all s ⧺ "\""

decimal_test : decimal 1024 ≡ "1024"
unfolding decimal
decimal_test = refl

quote_test : quote "a\"b" ≡ "\"a\\\"b\""
unfolding quote
quote_test = refl

join_test : join ", " ("a" ∷ "b" ∷ []) ≡ "a, b"
unfolding join
join_test = refl
