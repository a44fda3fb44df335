-- ===== src/Instance/Config/Entries.antt =====
-- Lookups in the entries of odoo.conf, and the lines that are written for them.
use text.Mathlib.TextLemmas.{append_assoc}
use odoo_k8_operator.Base.{
  String, Bool, true, false, ◌&&◌, not, ◌⧺◌, ◌==◌, is_some, List, [], ◌∷◌, ◌++◌, map, any, Option,
  none, some, sort, ◌≡◌, refl, ap, ◌∙◌, any-sort, any-compact, compact-IsRising, IsRising, one_line,
  one_line-append, lines, lines-one_line, lines-append, arith,
}
use odoo_k8_operator.Instance.Config.{
  Entries, value_of, shown, keys_of, sorted_keys, write_keys, write_conf,
}

-- The first that is there.
abbrev pub first_some : Option String → Option String → Option String
first_some none o = o
first_some (some v) o = some v

abbrev pub is_in : String → List String → Bool
is_in key keys = any (λ k. k == key) keys

pub value_of-append :
    (key : String) (xs m : Entries)
    → value_of key (xs ++ m) ≡ first_some (value_of key xs) (value_of key m)
value_of-append key [] m = refl
value_of-append key (e ∷ xs) m = ground (arith, value_of-append key xs m)

is_in-keys_of : (key : String) (m : Entries) → is_in key (keys_of m) ≡ is_some (value_of key m)
is_in-keys_of key [] = refl
is_in-keys_of key (e ∷ m) = ground (arith, is_in-keys_of key m)

-- The keys that are written are those of the entries.
pub is_in-sorted_keys :
    (key : String) (m : Entries) → is_in key (sorted_keys m) ≡ is_some (value_of key m)
unfolding sorted_keys
is_in-sorted_keys key m =
    any-compact (λ k. k == key) (sort (keys_of m))
    ∙ any-sort (λ k. k == key) (keys_of m)
    ∙ is_in-keys_of key m

pub sorted_keys-IsRising : (m : Entries) → IsRising (sorted_keys m)
unfolding sorted_keys
sorted_keys-IsRising m = compact-IsRising (keys_of m)

-- Neither the key nor the value of an entry has a second line.
abbrev pub clean : Entries → Bool
clean [] = true
clean (e ∷ m) = one_line e.0 && one_line e.1 && clean m

long_key : String → Bool
long_key k = not (one_line k)

any_long-clean : (m : Entries) → clean m ≡ true → any long_key (sorted_keys m) ≡ false
unfolding sorted_keys long_key
any_long-clean m h =
    any-compact long_key (sort (keys_of m)) ∙ any-sort long_key (keys_of m) ∙ of_keys m h
  where
    of_keys : (m : Entries) → clean m ≡ true → any long_key (keys_of m) ≡ false
    of_keys [] h = refl
    of_keys (e ∷ m) h = ground (arith, of_keys m)

shown-one_line :
    (key : String) (m : Entries) → clean m ≡ true → one_line (shown (value_of key m)) ≡ true
shown-one_line key [] h = refl
shown-one_line key (e ∷ m) h = ground (arith, shown-one_line key m)

-- The line of a key.
abbrev pub line_of : String → String → String
line_of key value = key ⧺ " = " ⧺ value

line_of-one_line :
    (key value : String)
    → one_line key ≡ true
    → one_line value ≡ true
    → one_line (line_of key value) ≡ true
line_of-one_line key value h k =
    one_line-append key (" = " ⧺ value) h (one_line-append " = " value refl k)

lines-write_keys :
    (m : Entries) (keys : List String)
    → clean m ≡ true
    → any long_key keys ≡ false
    → lines (write_keys m keys) ≡ map (λ k. line_of k (shown (value_of k m))) keys ++ ("" ∷ [])
unfolding write_keys lines long_key
lines-write_keys m [] h l = refl
lines-write_keys m (key ∷ keys) h l =
    lines-append (line_of key (shown (value_of key m))) (write_keys m keys)
    ∙ rw (lines-one_line _ (line_of-one_line key _ (ground arith) (shown-one_line key m h))) (
        ap (λ ls. line_of key (shown (value_of key m)) ∷ ls)
          (lines-write_keys m keys h (ground arith)))

-- The file has its header and one line for each key, whatever the texts are.
pub lines-write_conf :
    (m : Entries)
    → clean m ≡ true
    → lines (write_conf m)
      ≡ "[options]" ∷ (map (λ k. line_of k (shown (value_of k m))) (sorted_keys m) ++ ("" ∷ []))
unfolding write_conf
lines-write_conf m h =
    ap lines (append_assoc "[options]" "\n" (write_keys m (sorted_keys m)))
    ∙ lines-append "[options]" (write_keys m (sorted_keys m))
    ∙ rw (lines-one_line "[options]" refl)
        (ap (λ ls. "[options]" ∷ ls) (lines-write_keys m (sorted_keys m) h (any_long-clean m h)))
