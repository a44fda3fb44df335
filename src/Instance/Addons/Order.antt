-- ===== src/Instance/Addons/Order.antt =====
-- What an instance takes from its addons does not depend on the order in which they are listed.
use mathlib.Core.List.{Permᴰ}
use mathlib.Core.List.Permᴰ
use odoo_k8_operator.Base.{
  String, Bool, true, false, ◌&&◌, ◌==◌, if◌then◌else◌, List, [], ◌∷◌, ◌++◌, keep, ◌≡◌, refl, ap,
  join, compact, sort-perm, IsRising, compact-IsRising,
}
use odoo_k8_operator.Api.{OdooAddon}
use odoo_k8_operator.Instance.Addons.{
  filter_ready_addons, paths_of, all_paths, addon_mount_paths, addon_revision, addon_revisions,
  addons_hash,
}

-- With one more element, or not, on both sides.
cons_if {ℓ} :
    {A : Type ℓ} {xs ys : List A} (a : A) (t : Bool)
    → Permᴰ xs ys
    → Permᴰ (if t then a ∷ xs else xs) (if t then a ∷ ys else ys)
cons_if a true q = Permᴰ.cons refl q
cons_if a false q = q

swap_if {ℓ} :
    {A : Type ℓ} (a b : A) (t u : Bool) (l : List A)
    → Permᴰ
        (if t then a ∷ (if u then b ∷ l else l) else if u then b ∷ l else l)
        (if u then b ∷ (if t then a ∷ l else l) else if t then a ∷ l else l)
swap_if a b true true l = Permᴰ.swap refl refl
swap_if a b true false l = Permᴰ.refl (a ∷ l)
swap_if a b false true l = Permᴰ.refl (b ∷ l)
swap_if a b false false l = Permᴰ.refl l

keep-perm {ℓ} :
    {A : Type ℓ} {xs ys : List A} (p : A → Bool) → Permᴰ xs ys → Permᴰ (keep p xs) (keep p ys)
keep-perm p Permᴰ.nil = Permᴰ.nil
keep-perm p (Permᴰ.cons {a} {b} e q) = rw e (cons_if b (p b) (keep-perm p q))
keep-perm p (Permᴰ.swap {a} {b} {a'} {b'} {l} e f) =
    rw e (rw f (swap_if b' a' (p b') (p a') (keep p l)))
keep-perm p (Permᴰ.trans q r) = Permᴰ.trans (keep-perm p q) (keep-perm p r)

-- Two blocks change places.
swap_blocks {ℓ} : {A : Type ℓ} (xs ys l : List A) → Permᴰ (xs ++ (ys ++ l)) (ys ++ (xs ++ l))
swap_blocks [] ys l = Permᴰ.refl (ys ++ l)
swap_blocks (x ∷ xs) ys l =
    Permᴰ.trans (Permᴰ.cons refl (swap_blocks xs ys l)) (Permᴰ.symm (Permᴰ.middle x ys (xs ++ l)))

all_paths-perm : {as' bs : List OdooAddon} → Permᴰ as' bs → Permᴰ (all_paths as') (all_paths bs)
unfolding all_paths
all_paths-perm Permᴰ.nil = Permᴰ.nil
all_paths-perm (Permᴰ.cons {a} {b} e q) = rw e (Permᴰ.append_left (paths_of b) (all_paths-perm q))
all_paths-perm (Permᴰ.swap {a} {b} {a'} {b'} {l} e f) =
    rw e (rw f (swap_blocks (paths_of b') (paths_of a') (all_paths l)))
all_paths-perm (Permᴰ.trans q r) = Permᴰ.trans (all_paths-perm q) (all_paths-perm r)

-- The paths of modules that are listed in another order are the same.
addon_mount_paths-perm :
    {as' bs : List OdooAddon} → Permᴰ as' bs → addon_mount_paths as' ≡ addon_mount_paths bs
unfolding addon_mount_paths
addon_mount_paths-perm q = ap compact (sort-perm (all_paths-perm q))

addon_revisions-perm :
    {as' bs : List OdooAddon} → Permᴰ as' bs → addon_revisions as' ≡ addon_revisions bs
unfolding addon_revisions
addon_revisions-perm q = sort-perm (Permᴰ.map addon_revision q)

addon_mount_paths-IsRising : (as' : List OdooAddon) → IsRising (addon_mount_paths as')
unfolding addon_mount_paths
addon_mount_paths-IsRising as' = compact-IsRising (all_paths as')

-- What the pods of an instance get from its ready addons, the paths that are mounted and the
-- fingerprint that rolls the pods, is the same for two lists of the addons that differ only in their
-- order; and the paths rise strictly, so none is mounted twice.
pub addon_mount_paths-order :
    (sha : String → String) (name : String) {as' bs : List OdooAddon}
    → Permᴰ as' bs
    → (addon_mount_paths (filter_ready_addons as' name)
        ≡ addon_mount_paths (filter_ready_addons bs name))
      × ((addons_hash sha (filter_ready_addons as' name)
            ≡ addons_hash sha (filter_ready_addons bs name))
          × IsRising (addon_mount_paths (filter_ready_addons as' name)))
unfolding filter_ready_addons addons_hash
addon_mount_paths-order sha name {as'} {bs} q =
    let kept =
      keep-perm (λ (a : OdooAddon). (a.spec.instance_ref.name == name) && a.status.ready) q in
    (
      addon_mount_paths-perm kept,
      (ap (λ r. sha (join "\n" r)) (addon_revisions-perm kept), addon_mount_paths-IsRising _),
    )
