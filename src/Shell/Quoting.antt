-- ===== src/Shell/Quoting.antt =====
-- A command that is joined of quoted words is read back as these words: shJoin of internal/controller/
-- odooupgrade_script.go, and a command of words that shQuote (odooaddon_sync.go) made.
use text.Mathlib.TextLemmas.{append-nil}
use odoo_k8_operator.Base.{
  String, true, ◌⧺◌, List, [], ◌∷◌, map, join, Option, none, some, ◌≡◌, refl, ◌∙◌, ap, arith,
  join_one, join_more,
}
use odoo_k8_operator.Shell.{all_chars, safe_char, safe_word_char, sh_quote, sh_quote_word, sh_join}
use odoo_k8_operator.Shell.Words.{outside, char_class, Words, begin, part, all_words, lex, sh_words}
use odoo_k8_operator.Shell.Lexing.{pushes, pushes-some, space-append, lex-quote_unless}

-- A way to quote that a shell undoes, whatever follows the word.
Undone : (String → String) → Type 0
Undone q = (s t : String) → lex outside (q s ⧺ t) ≡ begin (pushes s (lex outside t))

sh_quote_word-Undone : Undone sh_quote_word
unfolding Undone sh_quote_word
sh_quote_word-Undone = lex-quote_unless safe_word_char (λ s h. h)

safe_char-word : (s : String) → all_chars safe_char s ≡ true → all_chars safe_word_char s ≡ true
unfolding all_chars
safe_char-word String.[] h = refl
safe_char-word (String.◌∷◌ c s) h = ground (arith, safe_char-word s)

sh_quote-Undone : Undone sh_quote
unfolding Undone sh_quote
sh_quote-Undone = lex-quote_unless safe_char safe_char-word

module _ (q : String → String) (undone : Undone q) where
  lex-join :
      (w : String) (ws : List String)
      → lex outside (join " " (map q (w ∷ ws))) ≡ some (record { current = some w; behind = ws })
  unfolding Undone lex char_class part all_words
  lex-join w [] =
      ap (lex outside) (join_one " " (q w))
      ∙ undone w ""
      ∙ pushes-some w (record { current = none; behind = [] })
      ∙ ap (λ x. some (record { current = some x; behind = [] })) (append-nil w)
  lex-join w (v ∷ vs) =
      ap (lex outside) (join_more " " (q w) (q v) (map q vs))
      ∙ undone w (" " ⧺ join " " (map q (v ∷ vs)))
      ∙ ap (λ x. begin (pushes w (lex outside x))) (space-append (join " " (map q (v ∷ vs))))
      ∙ ap (λ o. begin (pushes w (part o))) (lex-join v vs)
      ∙ pushes-some w (record { current = none; behind = v ∷ vs })
      ∙ ap (λ x. some (record { current = some x; behind = v ∷ vs })) (append-nil w)

  sh_words-join : (ws : List String) → sh_words (join " " (map q ws)) ≡ some ws
  unfolding sh_words all_words lex join
  sh_words-join [] = refl
  sh_words-join (w ∷ ws) =
      ap (λ (o : Option Words). elim o [ none ↦ none | some x ↦ some (all_words x) ])
        (lex-join w ws)

-- Whatever the words, with whatever quotes, blanks and other characters in them, a shell cuts the
-- joined command back into just these words.
pub sh_words-sh_join : (ws : List String) → sh_words (sh_join ws) ≡ some ws
unfolding sh_join
sh_words-sh_join = sh_words-join sh_quote_word sh_quote_word-Undone

-- So it does with words that shQuote made.
pub sh_words-sh_quote : (ws : List String) → sh_words (join " " (map sh_quote ws)) ≡ some ws
sh_words-sh_quote = sh_words-join sh_quote sh_quote-Undone
