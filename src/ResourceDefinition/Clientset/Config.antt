-- ===== src/ResourceDefinition/Clientset/Config.antt =====
-- typed/apps/v1beta1/apps_client.go, clientset.go, and NewSimpleClientset of
-- fake/clientset_generated.go: how the clients are made.
use kubernetes_examples.Prelude.{
  String, Bool, List, [], ◌∷◌, Option, none, some, if◌then◌else◌, str_eq,
}
use kubernetes_examples.Prelude.Int.{ℤ, pos, ltb_ℤ}
use kubernetes_examples.Prelude.Results.{Attempt, ok, err, Run, returned, panicked}

pub record GroupVersion : Type 0 where
  pub group : String
  pub version : String

abbrev pub scheme_group_version : GroupVersion
scheme_group_version = record { group = "apps.k8sdemo.io"; version = "v1beta1" }

-- The fields of `rest.Config` that the clients read or write; `rest` stands for the others. `R` is the type of
-- rate limiters, `F` that of float32.
pub record Config (R F : Type 0) : Type 0 where
  pub group_version : Option GroupVersion
  pub api_path : String
  pub serializer : String
  pub user_agent : String
  pub rate_limiter : Option R
  pub qps : F
  pub burst : ℤ
  pub rest : String

-- What the constructors call: HTTP clients `H`, REST clients `C`, discovery clients `D`.
pub record ConfigLib (R F H C D : Type 0) : Type 0 where
  pub http_client_for : Config R F → Attempt H
  pub rest_client_for : Config R F → H → Attempt C
  pub discovery_for : Config R F → H → Attempt D
  pub token_bucket : F → ℤ → R
  pub is_positive : F → Bool
  pub default_agent : String

module _ {R F H C D : Type 0} (lib : ConfigLib R F H C D) where
  unfoldable pub with_agent : Config R F → Config R F
  with_agent c = if str_eq c.user_agent "" then record c { user_agent = lib.default_agent } else c

  -- Its error is always nil. The serializer is `scheme.Codecs.WithoutConversion()`.
  unfoldable pub set_config_defaults : Config R F → Config R F
  set_config_defaults c = with_agent (record c {
    group_version = some scheme_group_version;
    api_path = "/apis";
    serializer = "scheme.Codecs.WithoutConversion()";
  })

  -- `NewForConfigAndClient` and `NewForConfig` of the apps client, which is its REST client.
  unfoldable pub apps_for_config_and_client : Config R F → H → Attempt C
  apps_for_config_and_client c h = lib.rest_client_for (set_config_defaults c) h

  unfoldable pub with_http_client : {A : Type 0} → Attempt H → (H → Attempt A) → Attempt A
  with_http_client (err e) f = err e
  with_http_client (ok h) f = f h

  unfoldable pub apps_for_config : Config R F → Attempt C
  apps_for_config c =
      let config = set_config_defaults c in
      with_http_client (lib.http_client_for config) (apps_for_config_and_client config)

  -- `Clientset` is the pair of its clients. The first error ends the construction.
  unfoldable pub both : Attempt C → Attempt D → Attempt (C × D)
  both (err e) d = err e
  both (ok c) (err e) = err e
  both (ok c) (ok d) = ok (c, d)

  unfoldable pub clients_for : Config R F → H → Attempt (C × D)
  clients_for c h = both (apps_for_config_and_client c h) (lib.discovery_for c h)

  unfoldable pub new_for_config_and_client : Config R F → H → Attempt (C × D)
  new_for_config_and_client c h = elim c.rate_limiter [
    | some _ ↦ clients_for c h
    | none ↦
        if lib.is_positive c.qps
        then (if ltb_ℤ (pos 0) c.burst
            then clients_for (record c { rate_limiter = some (lib.token_bucket c.qps c.burst) }) h
            else err
                "burst is required to be greater than 0 when RateLimiter is not set and QPS is set to greater than 0")
        else clients_for c h
  ]

  unfoldable pub new_for_config : Config R F → Attempt (C × D)
  new_for_config c =
      let config = with_agent c in
      with_http_client (lib.http_client_for config) (new_for_config_and_client config)

  unfoldable pub or_die : {A : Type 0} → Attempt A → Run A
  or_die (err e) = panicked
  or_die (ok a) = returned a

  unfoldable pub new_for_config_or_die : Config R F → Run (C × D)
  new_for_config_or_die c = or_die (new_for_config c)

-- The objects that `NewSimpleClientset` puts into its tracker, whose `Add` is the parameter.
unfoldable pub add_objects : {O T : Type 0} → (O → T → Attempt T) → List O → T → Run T
add_objects add [] t = returned t
add_objects add (o ∷ os) t = elim (add o t) [ err e ↦ panicked | ok t' ↦ add_objects add os t' ]
