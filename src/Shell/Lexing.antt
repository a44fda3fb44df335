-- ===== src/Shell/Lexing.antt =====
-- How a shell reads a quoted word: what quoting of internal/controller/odooupgrade_script.go and
-- odooaddon_sync.go comes to, whichever characters are left unquoted.
use Prim.Native.Char.{Char, code}
use Prim.Native.String.compare
use text.Mathlib.TextLemmas.{cons-append, nil-append, append_assoc, head-eq_of_cons-eq}
use odoo_k8_operator.Base.{
  ℕ, String, Bool, true, false, ◌&&◌, not, ◌==◌, ◌⧺◌, ◌=ℕ◌, if◌then◌else◌, Option, none, some, ◌≡◌,
  ◌≢◌, inl, inr, refl, sym, ◌∙◌, ap, arith, eq_iff, eq_refl, Bool-cases,
}
use odoo_k8_operator.Shell.{all_chars, safe_word_char, escape_quotes, quote_unless}
use odoo_k8_operator.Shell.Words.{
  outside, quoted, single_quote, char_class, Words, text_of, begin, push, lex,
}

pub code-inj : (c d : Char) → code c ≡ code d → c ≡ d
code-inj c d h = head-eq_of_cons-eq (
    (eq_iff (String.◌∷◌ c String.[]) (String.◌∷◌ d String.[])).0
      (ground (arith, compare.cons-cons c d String.[] String.[], compare.nil-nil)))

-- All characters of a word, pushed.
unfoldable pub pushes : String → Option Words → Option Words
unfolding push
pushes String.[] o = o
pushes (String.◌∷◌ c s) o = push c (pushes s o)

begin-push : (c : Char) (o : Option Words) → begin (push c o) ≡ push c o
unfolding begin push
begin-push c none = refl
begin-push c (some w) = refl

push-begin : (c : Char) (o : Option Words) → push c (begin o) ≡ push c o
unfolding begin push
push-begin c none = refl
push-begin c (some w) = refl

pub pushes-some :
    (s : String) (w : Words)
    → begin (pushes s (some w))
      ≡ some (record { current = some (s ⧺ text_of w.current); behind = w.behind })
unfolding begin pushes push text_of
pushes-some String.[] w =
    ap (λ x. some (record { current = some x; behind = w.behind }))
      (sym (nil-append (text_of w.current)))
pushes-some (String.◌∷◌ c s) w =
    begin-push c (pushes s (some w))
    ∙ sym (push-begin c (pushes s (some w)))
    ∙ ap (push c) (pushes-some s w)
    ∙ ap (λ x. some (record { current = some x; behind = w.behind }))
        (sym (cons-append c s (text_of w.current)))

lex-safe :
    (s t : String)
    → all_chars safe_word_char s ≡ true
    → lex outside (s ⧺ t) ≡ pushes s (lex outside t)
unfolding lex pushes all_chars char_class
lex-safe String.[] t h = ap (lex outside) (nil-append t)
lex-safe (String.◌∷◌ c s) t h = ap (lex outside) (cons-append c s t) ∙ ground (arith, lex-safe s t)

abbrev quote_char : Char
quote_char = "'"

abbrev backslash_char : Char
backslash_char = "\\"

abbrev pub space_char : Char
space_char = " "

-- Appending to a literal, character by character.
cons_to : (c : Char) (s u x : String) → s ⧺ u ≡ x → String.◌∷◌ c s ⧺ u ≡ String.◌∷◌ c x
cons_to c s u x h = cons-append c s u ∙ ap (String.◌∷◌ c) h

quote-append : (u : String) → "'" ⧺ u ≡ String.◌∷◌ quote_char u
quote-append u = cons_to quote_char "" u u (nil-append u)

pub space-append : (u : String) → " " ⧺ u ≡ String.◌∷◌ space_char u
space-append u = cons_to space_char "" u u (nil-append u)

escaped-append :
    (u : String)
    → "'\\''" ⧺ u
      ≡ String.◌∷◌ quote_char
          (String.◌∷◌ backslash_char (String.◌∷◌ quote_char (String.◌∷◌ quote_char u)))
escaped-append u =
    cons_to quote_char "\\''" u _
      (cons_to backslash_char "''" u _ (cons_to quote_char "'" u _ (quote-append u)))

-- The four characters that stand for a quote inside quotes.
lex-escaped_quote : (u : String) → lex quoted ("'\\''" ⧺ u) ≡ push quote_char (lex quoted u)
unfolding lex char_class
lex-escaped_quote u =
    ap (lex quoted) (escaped-append u)
    ∙ begin-push quote_char (begin (lex quoted u))
    ∙ push-begin quote_char (lex quoted u)

class-quote : (c : Char) → (code c =ℕ b'\'') ≡ false → char_class c ≢ single_quote
unfolding char_class
class-quote c h e = ground arith

lex-kept :
    (c : Char) (u : String)
    → (code c =ℕ b'\'') ≡ false
    → lex quoted (String.◌∷◌ c u) ≡ push c (lex quoted u)
unfolding lex
lex-kept c u h = ground (arith, class-quote c h)

lex-escape_quotes :
    (s t : String) → lex quoted (escape_quotes s ⧺ ("'" ⧺ t)) ≡ pushes s (begin (lex outside t))
unfolding escape_quotes pushes lex char_class
lex-escape_quotes String.[] t = ap (lex quoted) (nil-append ("'" ⧺ t) ∙ quote-append t)
lex-escape_quotes (String.◌∷◌ c s) t =
    let u = "'" ⧺ t in
    elim (Bool-cases (code c =ℕ b'\'')) [
      | inl e ↦
          ap
            (λ b.
              lex quoted
                ((if b then "'\\''" ⧺ escape_quotes s else String.◌∷◌ c (escape_quotes s)) ⧺ u))
            e
          ∙ ap (lex quoted) (append_assoc "'\\''" (escape_quotes s) u)
          ∙ lex-escaped_quote (escape_quotes s ⧺ u)
          ∙ ap (λ d. push d (lex quoted (escape_quotes s ⧺ u)))
              (sym (code-inj c quote_char (ground arith)))
          ∙ ap (push c) (lex-escape_quotes s t)
      | inr e ↦
          ap
            (λ b.
              lex quoted
                ((if b then "'\\''" ⧺ escape_quotes s else String.◌∷◌ c (escape_quotes s)) ⧺ u))
            e
          ∙ ap (lex quoted) (cons-append c (escape_quotes s) u)
          ∙ lex-kept c (escape_quotes s ⧺ u) e
          ∙ ap (push c) (lex-escape_quotes s t)
    ]

lex-open : (u : String) → lex outside ("'" ⧺ u) ≡ begin (lex quoted u)
unfolding lex char_class
lex-open u = ap (lex outside) (quote-append u)

begin-twice : (o : Option Words) → begin (begin o) ≡ begin o
unfolding begin
begin-twice none = refl
begin-twice (some w) = refl

begin-pushes : (s : String) (o : Option Words) → begin (pushes s (begin o)) ≡ begin (pushes s o)
unfolding pushes
begin-pushes String.[] o = begin-twice o
begin-pushes (String.◌∷◌ c s) o =
    begin-push c (pushes s (begin o))
    ∙ sym (push-begin c (pushes s (begin o)))
    ∙ ap (push c) (begin-pushes s o)
    ∙ push-begin c (pushes s o)
    ∙ sym (begin-push c (pushes s o))

pushes-cons : (s : String) (o : Option Words) → (s == "") ≡ false → pushes s o ≡ begin (pushes s o)
unfolding pushes
pushes-cons String.[] o h = ground (arith, eq_refl "")
pushes-cons (String.◌∷◌ c s) o h = sym (begin-push c (pushes s o))

-- Whatever the word, a shell that reads the quoted word before a text goes on with that word in front
-- of what it reads of the text, as long as no character that a shell takes for something else is left
-- unquoted.
pub lex-quote_unless :
    (safe : ℕ → Bool)
    → ((s : String) → all_chars safe s ≡ true → all_chars safe_word_char s ≡ true)
    → (s t : String) → lex outside (quote_unless safe s ⧺ t) ≡ begin (pushes s (lex outside t))
unfolding quote_unless
lex-quote_unless safe kept s t = elim (Bool-cases (not (s == "") && all_chars safe s)) [
  | inl e ↦
      ap (λ b. lex outside ((if b then s else "'" ⧺ escape_quotes s ⧺ "'") ⧺ t)) e
      ∙ lex-safe s t (kept s (ground arith))
      ∙ pushes-cons s (lex outside t) (ground arith)
  | inr e ↦
      ap (λ b. lex outside ((if b then s else "'" ⧺ escape_quotes s ⧺ "'") ⧺ t)) e
      ∙ ap (lex outside) (append_assoc "'" (escape_quotes s ⧺ "'") t)
      ∙ ap (λ x. lex outside ("'" ⧺ x)) (append_assoc (escape_quotes s) "'" t)
      ∙ lex-open (escape_quotes s ⧺ ("'" ⧺ t))
      ∙ ap begin (lex-escape_quotes s t)
      ∙ begin-pushes s (lex outside t)
]
