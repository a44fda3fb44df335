-- ===== src/Examples/Watch.antt =====
-- A rotated password of the instance of the examples, and a new addon of it.
use odoo_k8_operator.Base.{
  true, none, String, ◌==◌, if◌then◌else◌, [], ◌∷◌, ◌++◌, Memᴰ, ◌≡◌, ◌≢◌, ◌⊎◌, refl, arith, eq_iff,
}
use odoo_k8_operator.Kube.{Reply, got}
use odoo_k8_operator.Instance.Addons.{SecretData}
use odoo_k8_operator.Instance.Reconcile.{reconcile_odoo_instance}
use odoo_k8_operator.Instance.Watch.{request_for, instances_using_secret, all_addon_requests}
use odoo_k8_operator.Instance.Watch.Unwatched.{changed, names_login, unwatched-same}
use odoo_k8_operator.Examples.Samples.{shop}
use odoo_k8_operator.Examples.Pass.{shop_tools, shop_reads}
use odoo_k8_operator.Examples.Addon.{web}

abbrev rotated : String → Reply SecretData
rotated name =
    if name == "pg"
    then got (record { keys = "password" ∷ []; value_of = λ key. "0b" })
    else shop_reads.secret name

rotated-others : (name : String) → name ≢ "pg" → shop_reads.secret name ≡ rotated name
rotated-others name ne = ground (arith, eq_iff name "pg")

unwatched-same_example :
    (reconcile_odoo_instance shop_tools
        (changed shop_tools shop_reads shop rotated none (web ∷ []))
        shop
      ≡ reconcile_odoo_instance shop_tools shop_reads shop)
    ⊎ (Memᴰ
          (request_for shop)
          (instances_using_secret "pg" (got (shop ∷ [])) ++ all_addon_requests (web ∷ []))
        ⊎ (names_login "pg" shop.spec.initialize ≡ true))
unwatched-same_example =
    unwatched-same shop_tools shop_reads shop (shop ∷ []) (Memᴰ.head refl) refl "pg" rotated none
      rotated-others (λ h. refl) [] [] (web ∷ []) [] refl refl

-- No pass is told of the Secret of the first login.
login_unwatched : instances_using_secret "login" (got (shop ∷ [])) ≡ []
unfolding instances_using_secret
login_unwatched = refl

told_twice :
    instances_using_secret "pg" (got (shop ∷ [])) ++ all_addon_requests (web ∷ [])
    ≡ request_for shop ∷ request_for shop ∷ []
unfolding instances_using_secret all_addon_requests
told_twice = refl
