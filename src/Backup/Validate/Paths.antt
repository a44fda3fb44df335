-- ===== src/Backup/Validate/Paths.antt =====
-- The paths that backupValidatePath lets through, and strings.Split.
use mathlib.Core.List.Memᴰ
use Prim.Native.Char.{Char, code}
use text.Mathlib.TextLemmas.{cons-append, nil-append, append-nil}
use odoo_k8_operator.Base.{
  String, true, false, ◌==◌, ◌⧺◌, ◌=ℕ◌, if◌then◌else◌, List, [], ◌∷◌, Memᴰ, none, ◌≡◌, ◌≢◌, ◌⊎◌,
  inl, inr, refl, sym, ◌∙◌, ap, arith, eq_iff, Bool-cases, starts_with, join, join_one, join_more,
}
use odoo_k8_operator.Shell.{all_chars}
use odoo_k8_operator.Shell.Lexing.{code-inj}
use odoo_k8_operator.Backup.Validate.{
  backup_path_char, trim_slash, in_front, split_slash, check_segments, backup_validate_path,
}

-- A path inside the volume: relative, plain, and with no step up in it.
pub record IsInside (value : String) : Type 0 where
  pub plain : all_chars backup_path_char value ≡ true
  pub relative : starts_with value "/" ≡ false
  pub segments :
      (seg : String) → Memᴰ seg (split_slash (trim_slash value)) → (seg ≢ "") × (seg ≢ "..")

check_segments-none :
    (field value : String) (segs : List String)
    → check_segments field value segs ≡ none
    → (seg : String) → Memᴰ seg segs
    → (seg ≢ "") × (seg ≢ "..")
unfolding check_segments
check_segments-none field value [] h seg i = elim i [ ]
check_segments-none field value (x ∷ xs) h seg i = elim (Memᴰ.cases_cons i) [
  | inl e ↦ ((λ p. ground (arith, eq_iff x "", e, p)), (λ p. ground (arith, eq_iff x "..", e, p)))
  | inr below ↦ check_segments-none field value xs (ground arith) seg below
]

pub backup_validate_path-IsInside :
    (field value : String) → backup_validate_path field value ≡ none → (value ≡ "") ⊎ IsInside value
unfolding backup_validate_path
backup_validate_path-IsInside field value h = elim (Bool-cases (value == "")) [
  | inl e ↦ inl ((eq_iff value "").0 e)
  | inr e ↦ inr (record {
    plain = ground arith;
    relative = ground arith;
    segments = check_segments-none field value (split_slash (trim_slash value)) (ground arith);
  })
]

one-append : (c : Char) (x : String) → String.◌∷◌ c String.[] ⧺ x ≡ String.◌∷◌ c x
one-append c x = cons-append c String.[] x ∙ ap (String.◌∷◌ c) (nil-append x)

join-in_front :
    (c : Char) (xs : List String)
    → join "/" (in_front (String.◌∷◌ c String.[]) xs) ≡ String.◌∷◌ c (join "/" xs)
unfolding in_front join
join-in_front c [] = append-nil (String.◌∷◌ c String.[])
join-in_front c (x ∷ []) = ap (λ y. y ⧺ "") (one-append c x) ∙ cons-append c x ""
join-in_front c (x ∷ y ∷ ys) =
    join_more "/" (String.◌∷◌ c String.[] ⧺ x) y ys
    ∙ ap (λ z. z ⧺ "/" ⧺ join "/" (y ∷ ys)) (one-append c x)
    ∙ cons-append c x ("/" ⧺ join "/" (y ∷ ys))
    ∙ ap (String.◌∷◌ c) (sym (join_more "/" x y ys))

in_front-cons :
    (c : String) (xs : List String) → (y : String) × (ys : List String) × (in_front c xs ≡ y ∷ ys)
unfolding in_front
in_front-cons c [] = (c, [], refl)
in_front-cons c (x ∷ xs) = (c ⧺ x, xs, refl)

split_slash-cons : (s : String) → (y : String) × (ys : List String) × (split_slash s ≡ y ∷ ys)
unfolding split_slash
split_slash-cons String.[] = ("", [], refl)
split_slash-cons (String.◌∷◌ c s) = elim (Bool-cases (code c =ℕ b'/')) [
  | inl e ↦ ("", split_slash s, ground (arith, e))
  | inr e ↦
      let (y, ys, h) = in_front-cons (String.◌∷◌ c String.[]) (split_slash s) in
      (y, ys, ground (arith, e, h))
]

abbrev slash_char : Char
slash_char = "/"

join-slash :
    (xs : List String) (s y : String) (ys : List String)
    → xs ≡ y ∷ ys
    → join "/" xs ≡ s
    → join "/" ("" ∷ xs) ≡ "/" ⧺ s
join-slash xs s y ys h j =
    ap (λ zs. join "/" ("" ∷ zs)) h
    ∙ join_more "/" "" y ys
    ∙ nil-append ("/" ⧺ join "/" (y ∷ ys))
    ∙ ap (λ zs. "/" ⧺ join "/" zs) (sym h)
    ∙ ap (λ z. "/" ⧺ z) j

-- The segments of a path are its parts: joined again by slashes, they are the path.
pub split_slash-join : (s : String) → join "/" (split_slash s) ≡ s
unfolding split_slash
split_slash-join String.[] = join_one "/" "" ∙ nil-append ""
split_slash-join (String.◌∷◌ c s) = elim (Bool-cases (code c =ℕ b'/')) [
  | inl e ↦
      let (y, ys, h) = split_slash-cons s in
      ap
        (λ b.
          join "/"
            (if b then "" ∷ split_slash s else in_front (String.◌∷◌ c String.[]) (split_slash s)))
        e
      ∙ join-slash (split_slash s) s y ys h (split_slash-join s)
      ∙ one-append slash_char s
      ∙ ap (λ d. String.◌∷◌ d s) (sym (code-inj c slash_char (ground arith)))
  | inr e ↦
      ap
        (λ b.
          join "/"
            (if b then "" ∷ split_slash s else in_front (String.◌∷◌ c String.[]) (split_slash s)))
        e
      ∙ join-in_front c (split_slash s)
      ∙ ap (String.◌∷◌ c) (split_slash-join s)
]
