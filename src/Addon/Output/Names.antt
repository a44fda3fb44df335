-- ===== src/Addon/Output/Names.antt =====
-- The names of module folders that validateModuleName (internal/controller/odooaddon_sync.go) admits,
-- joined by commas and cut again, as parseModulesLine does.
use Prim.Native.Char.{code}
use text.Mathlib.TextLemmas.{cons-append, nil-append, append-nil}
use odoo_k8_operator.Base.{
  ℕ, String, Bool, true, false, ◌⧺◌, ◌==◌, ◌=ℕ◌, ◌≤◌, List, [], ◌∷◌, some, ◌≡◌, refl, ap, ◌∙◌,
  none_of, none_of-append, append-filled, join, join_one, join_more, any, arith,
}
use odoo_k8_operator.Shell.{all_chars}
use odoo_k8_operator.JobStatus.{is_space}
use odoo_k8_operator.Addon.Spec.{path_char, validate_module_name}
use odoo_k8_operator.Addon.Spec.Laws.{IsSafeSegment, validate_path_segment-IsSafeSegment}
use odoo_k8_operator.Addon.Output.{comma_parts, valid_modules}
use odoo_k8_operator.Addon.Output.Valid.{is_invalid}

abbrev is_comma : ℕ → Bool
is_comma c = c =ℕ b','

comma_parts-one : (s : String) → none_of is_comma s ≡ true → comma_parts s ≡ s ∷ []
unfolding comma_parts
comma_parts-one String.[] h = refl
comma_parts-one (String.◌∷◌ c s) h = ground (arith, comma_parts-one s)

comma-append : (t : String) → "," ⧺ t ≡ String.◌∷◌ "," t
comma-append t = cons-append "," "" t ∙ ap (String.◌∷◌ ",") (nil-append t)

comma_parts-more :
    (s t : String) → none_of is_comma s ≡ true → comma_parts (s ⧺ "," ⧺ t) ≡ s ∷ comma_parts t
unfolding comma_parts
comma_parts-more String.[] t h =
    ap comma_parts (nil-append ("," ⧺ t)) ∙ ap comma_parts (comma-append t)
comma_parts-more (String.◌∷◌ c s) t h =
    ap comma_parts (cons-append c s ("," ⧺ t)) ∙ ground (arith, comma_parts-more s t)

path_char-bounds : (c : ℕ) → path_char c ≡ true → (45 ≤ c) × (c ≤ 122)
path_char-bounds c h = (ground arith, ground arith)

solid-of_bounds : (c : ℕ) → 45 ≤ c → c ≤ 122 → is_space c ≡ false
solid-of_bounds c low high = ground arith

path_char-not_space : (c : ℕ) → path_char c ≡ true → is_space c ≡ false
path_char-not_space c h = let (low, high) = path_char-bounds c h in solid-of_bounds c low high

-- A test that rules another out does so along a text.
all_chars-none_of :
    (p cut : ℕ → Bool)
    → ((c : ℕ) → p c ≡ true → cut c ≡ false)
    → (s : String) → all_chars p s ≡ true
    → none_of cut s ≡ true
unfolding all_chars
all_chars-none_of p cut out String.[] h = refl
all_chars-none_of p cut out (String.◌∷◌ c s) h =
    ground (arith, out (code c), all_chars-none_of p cut out s)

path_char-not_comma : (c : ℕ) → path_char c ≡ true → is_comma c ≡ false
path_char-not_comma c h = ground arith

pub valid_modules-all :
    (names : List String) → any is_invalid names ≡ false → valid_modules names ≡ some names
unfolding valid_modules is_invalid
valid_modules-all [] h = refl
valid_modules-all (n ∷ ns) h = ground (arith, valid_modules-all ns)

-- The name of a module's folder.
name-IsSafeSegment : (n : String) → is_invalid n ≡ false → IsSafeSegment n
unfolding is_invalid validate_module_name
name-IsSafeSegment n h = validate_path_segment-IsSafeSegment n (ground arith)

name-solid : (n : String) → is_invalid n ≡ false → none_of is_space n ≡ true
name-solid n h =
    all_chars-none_of path_char is_space path_char-not_space n (name-IsSafeSegment n h).plain

name-no_comma : (n : String) → is_invalid n ≡ false → none_of is_comma n ≡ true
name-no_comma n h =
    all_chars-none_of path_char is_comma path_char-not_comma n (name-IsSafeSegment n h).plain

-- A list of names, joined by commas, is cut into the names.
pub comma_parts-join :
    (n : String) (ns : List String)
    → any is_invalid (n ∷ ns) ≡ false
    → comma_parts (join "," (n ∷ ns)) ≡ n ∷ ns
comma_parts-join n [] h =
    ap comma_parts (join_one "," n ∙ append-nil n)
    ∙ comma_parts-one n (name-no_comma n (ground arith))
comma_parts-join n (m ∷ ns) h =
    ap comma_parts (join_more "," n m ns)
    ∙ comma_parts-more n (join "," (m ∷ ns)) (name-no_comma n (ground arith))
    ∙ ap (λ ps. n ∷ ps) (comma_parts-join m ns (ground arith))

pub join-solid :
    (n : String) (ns : List String)
    → any is_invalid (n ∷ ns) ≡ false
    → none_of is_space (join "," (n ∷ ns)) ≡ true
join-solid n [] h =
    ap (none_of is_space) (join_one "," n ∙ append-nil n) ∙ name-solid n (ground arith)
join-solid n (m ∷ ns) h =
    ap (none_of is_space) (join_more "," n m ns)
    ∙ none_of-append is_space n ("," ⧺ join "," (m ∷ ns)) (name-solid n (ground arith))
        (none_of-append is_space "," (join "," (m ∷ ns)) refl (join-solid m ns (ground arith)))

pub join-filled :
    (n : String) (ns : List String)
    → any is_invalid (n ∷ ns) ≡ false
    → (join "," (n ∷ ns) == "") ≡ false
unfolding join
join-filled n ns h = append-filled n _ (name-IsSafeSegment n (ground arith)).not_empty
