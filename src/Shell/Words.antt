-- ===== src/Shell/Words.antt =====
-- How a POSIX shell cuts a command into words, as far as quoting goes: blanks part words, single
-- quotes keep what is between them, a backslash keeps the next character, and a character that a
-- shell may take for something else outside quotes has no reading here. It is what shQuoteWord and
-- shJoin (internal/controller/odooupgrade_script.go) are written for, and does not come from them.
use Prim.Native.Char.{Char, code}
use odoo_k8_operator.Base.{
  String, ◌||◌, ◌=ℕ◌, if◌then◌else◌, List, [], ◌∷◌, Option, none, some, ◌≡◌, refl,
}
use odoo_k8_operator.Shell.{safe_word_char}

pub data Mode : Type 0 where
  outside quoted escaped : Mode

pub data CharClass : Type 0 where
  plain blank single_quote backslash special : CharClass

unfoldable pub char_class : Char → CharClass
char_class c =
    if safe_word_char (code c)
    then plain
    else if code c =ℕ 32 || code c =ℕ 9
    then blank
    else if code c =ℕ 39
    then single_quote
    else if code c =ℕ 92
    then backslash
    else special

-- What is left of the command: the word that goes on here, if one does, and the words behind it.
pub record Words : Type 0 where
  pub current : Option String
  pub behind : List String

unfoldable pub text_of : Option String → String
text_of none = ""
text_of (some w) = w

-- The word goes on, be it with nothing.
unfoldable pub begin : Option Words → Option Words
unfolding text_of
begin none = none
begin (some w) = some (record w { current = some (text_of w.current) })

unfoldable pub push : Char → Option Words → Option Words
unfolding text_of
push c none = none
push c (some w) = some (record w { current = some (String.◌∷◌ c (text_of w.current)) })

unfoldable pub all_words : Words → List String
all_words w = elim w.current [ none ↦ w.behind | some x ↦ x ∷ w.behind ]

-- A blank: the word that goes on behind it is one of its own.
unfoldable pub part : Option Words → Option Words
unfolding all_words
part none = none
part (some w) = some (record { current = none; behind = all_words w })

unfoldable pub lex : Mode → String → Option Words
unfolding char_class begin push part
lex outside String.[] = some (record { current = none; behind = [] })
lex outside (String.◌∷◌ c s) = elim (char_class c) [
  | plain ↦ push c (lex outside s)
  | blank ↦ part (lex outside s)
  | single_quote ↦ begin (lex quoted s)
  | backslash ↦ lex escaped s
  | special ↦ none
]
lex quoted String.[] = none
lex quoted (String.◌∷◌ c s) = elim (char_class c) [
  | plain ↦ push c (lex quoted s)
  | blank ↦ push c (lex quoted s)
  | single_quote ↦ begin (lex outside s)
  | backslash ↦ push c (lex quoted s)
  | special ↦ push c (lex quoted s)
]
lex escaped String.[] = none
lex escaped (String.◌∷◌ c s) = push c (lex outside s)

-- The words of a command.
unfoldable pub sh_words : String → Option (List String)
unfolding lex all_words
sh_words s = elim (lex outside s) [ none ↦ none | some w ↦ some (all_words w) ]

sh_words_test : sh_words "odoo -d 'my '\\''db' ''" ≡ some ("odoo" ∷ "-d" ∷ "my 'db" ∷ "" ∷ [])
unfolding sh_words
sh_words_test = refl
