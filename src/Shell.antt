-- ===== src/Shell.antt =====
-- Shell quoting: shQuoteWord, shJoin and upgradeInitScript (internal/controller/
-- odooupgrade_script.go) and shQuote (odooaddon_sync.go). The two regular expressions are sets of
-- characters, with at least one character.
pub mod Words
pub mod Lexing
pub mod Quoting
use Prim.Native.Char.{code}
use odoo_k8_operator.Base.{
  ℕ, String, Bool, true, ◌&&◌, ◌||◌, not, ◌⧺◌, ◌==◌, leb, ◌=ℕ◌, if◌then◌else◌, List, [], ◌∷◌, map,
  join,
}
unfoldable pub use odoo_k8_operator.Base.{all_chars}

abbrev pub alphanumeric : ℕ → Bool
alphanumeric c =
    (leb b'a' c && leb c b'z') || (leb b'A' c && leb c b'Z') || (leb b'0' c && leb c b'9')

-- [a-zA-Z0-9_./=,:+-]
abbrev pub safe_word_char : ℕ → Bool
safe_word_char c =
    alphanumeric c
    || c =ℕ b'_'
    || c =ℕ b'.'
    || c =ℕ b'/'
    || c =ℕ b'='
    || c =ℕ b','
    || c =ℕ b':'
    || c =ℕ b'+'
    || c =ℕ b'-'

-- [a-zA-Z0-9._/+-]
abbrev pub safe_char : ℕ → Bool
safe_char c = alphanumeric c || c =ℕ b'.' || c =ℕ b'_' || c =ℕ b'/' || c =ℕ b'+' || c =ℕ b'-'

-- strings.ReplaceAll of ' by '\''
unfoldable pub escape_quotes : String → String
escape_quotes String.[] = ""
escape_quotes (String.◌∷◌ c s) =
    let rest = escape_quotes s in if code c =ℕ b'\'' then "'\\''" ⧺ rest else String.◌∷◌ c rest

pub quote_unless : (ℕ → Bool) → String → String
unfolding all_chars escape_quotes
quote_unless safe s = if not (s == "") && all_chars safe s then s else "'" ⧺ escape_quotes s ⧺ "'"

-- shQuoteWord
unfoldable pub sh_quote_word : String → String
unfolding quote_unless
sh_quote_word s = quote_unless safe_word_char s

-- shQuote
unfoldable pub sh_quote : String → String
unfolding quote_unless
sh_quote s = quote_unless safe_char s

-- shJoin
unfoldable pub sh_join : List String → String
unfolding sh_quote_word join
sh_join words = join " " (map sh_quote_word words)

abbrev pub upgrade_admin_password_snippet : String
upgrade_admin_password_snippet =
    "import os\nu = env.ref('base.user_admin')\nu.password = os.environ['ODOO_ADMIN_USER_PASSWORD']\nenv.cr.commit()\n"

-- upgradeInitScript
unfoldable pub upgrade_init_script : String → List String → String
unfolding sh_join
upgrade_init_script database init_args =
    let install = "odoo" ∷ init_args in
    let shell =
      "odoo" ∷ "shell" ∷ "--config" ∷ "/etc/odoo/odoo.conf" ∷ "-d" ∷ database ∷ "--no-http" ∷ [] in
    "set -e\n"
    ⧺ sh_join install
    ⧺ "\n"
    ⧺ sh_join shell
    ⧺ " <<'EOF'\n"
    ⧺ upgrade_admin_password_snippet
    ⧺ "EOF\n"
