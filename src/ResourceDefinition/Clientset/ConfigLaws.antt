-- ===== src/ResourceDefinition/Clientset/ConfigLaws.antt =====
-- The ways to make a clientset agree, and when there is none.
use kubernetes_examples.Prelude.{
  String, true, false, ◌≡◌, ◌≢◌, ◌⊎◌, refl, inl, inr, ap, none, some, arith, Bool-cases,
  Option-cases, str_eq,
}
use kubernetes_examples.Prelude.Int.{pos, ltb_ℤ}
use kubernetes_examples.Prelude.Results.{ok, err, Attempt-cases}
use kubernetes_examples.ResourceDefinition.Clientset.Config.{
  Config, ConfigLib, with_agent, set_config_defaults, apps_for_config_and_client, with_http_client,
  apps_for_config, both, clients_for, new_for_config_and_client, new_for_config,
}

module _ {R F H C D : Type 0} (lib : ConfigLib R F H C D) where
  agent_again : (c : Config R F) → with_agent lib (with_agent lib c) ≡ with_agent lib c
  unfolding with_agent
  agent_again c = elim (Bool-cases (str_eq c.user_agent "")) [
    | inl e ↦ elim (Bool-cases (str_eq lib.default_agent "")) [
      | inl f ↦ rw (e, f) refl
      | inr f ↦ rw (e, f) refl
    ]
    | inr e ↦ rw (e, e) refl
  ]

  defaults_again :
      (c : Config R F)
      → set_config_defaults lib (set_config_defaults lib c) ≡ set_config_defaults lib c
  unfolding set_config_defaults with_agent
  defaults_again c = elim (Bool-cases (str_eq c.user_agent "")) [
    | inl e ↦ elim (Bool-cases (str_eq lib.default_agent "")) [
      | inl f ↦ rw (e, f) refl
      | inr f ↦ rw (e, f) refl
    ]
    | inr e ↦ rw (e, e) refl
  ]

  -- Making a client from a configuration is making it from the configuration and the HTTP client of the
  -- configuration with its defaults, for the apps client and for the clientset; where there is no such HTTP
  -- client, its error is returned.
  for_config-for_client :
      (c : Config R F)
      → ((h : H)
          → lib.http_client_for (set_config_defaults lib c) ≡ ok h
          → apps_for_config lib c ≡ apps_for_config_and_client lib c h)
        × ((h : H)
            → lib.http_client_for (with_agent lib c) ≡ ok h
            → new_for_config lib c ≡ new_for_config_and_client lib (with_agent lib c) h)
        × ((e : String)
            → lib.http_client_for (set_config_defaults lib c) ≡ err e
            → apps_for_config lib c ≡ err e)
        × ((e : String)
            → lib.http_client_for (with_agent lib c) ≡ err e
            → new_for_config lib c ≡ err e)
  unfolding apps_for_config new_for_config with_http_client apps_for_config_and_client
  for_config-for_client c = (
    λ h made. rw made (ap (λ k. lib.rest_client_for k h) (defaults_again c)),
    λ h made. rw made refl,
    λ e made. rw made refl,
    λ e made. rw made refl,
  )

  made_both :
      (used : Config R F) (h : H) (cs : C × D)
      → clients_for lib used h ≡ ok cs
      → (lib.rest_client_for (set_config_defaults lib used) h ≡ ok cs.0)
        × (lib.discovery_for used h ≡ ok cs.1)
  unfolding clients_for apps_for_config_and_client both
  made_both used h cs made =
      elim (Attempt-cases (lib.rest_client_for (set_config_defaults lib used) h)) [
        | inl (a, e) ↦ elim (Attempt-cases (lib.discovery_for used h)) [
          | inl (b, f) ↦ ground (arith, e, f, made)
          | inr (t, f) ↦ ground (arith, e, f, made)
        ]
        | inr (t, e) ↦ ground (arith, e, made)
      ]

  -- A clientset is made only where the rate is limited, or not to be limited, or the burst is positive,
  -- and both clients are made; and both are made from one configuration, with one rate limiter.
  new_for_config_and_client-made :
      (c : Config R F) (h : H) (cs : C × D)
      → new_for_config_and_client lib c h ≡ ok cs
      → ((c.rate_limiter ≢ none)
          ⊎ ((lib.is_positive c.qps ≡ false) ⊎ (ltb_ℤ (pos 0) c.burst ≡ true)))
        × ((used : Config R F) × (lib.rest_client_for (set_config_defaults lib used) h ≡ ok cs.0)
            × (lib.discovery_for used h ≡ ok cs.1)
            × ((c.rate_limiter ≢ none) → used ≡ c)
            × (lib.is_positive c.qps ≡ true → used.rate_limiter ≢ none))
  unfolding new_for_config_and_client
  new_for_config_and_client-made c h cs made = elim (Option-cases c.rate_limiter) [
    | inr (r, e) ↦
        let (a, b) = made_both c h cs (ground (arith, e, made)) in
        (inl (λ f. ground (arith, e, f)), (c, a, b, (λ _. refl), λ _ f. ground (arith, e, f)))
    | inl e ↦ elim (Bool-cases (lib.is_positive c.qps)) [
      | inr off ↦
          let (a, b) = made_both c h cs (ground (arith, e, off, made)) in
          (inr (inl off), (c, a, b, (λ _. refl), λ f. ground (arith, off, f)))
      | inl on ↦ elim (Bool-cases (ltb_ℤ (pos 0) c.burst)) [
        | inr low ↦ absurd (ground (arith, e, on, low, made))
        | inl high ↦
            let used : Config R F = record c {
              rate_limiter = some (lib.token_bucket c.qps c.burst);
            } in
            let (a, b) = made_both used h cs (ground (arith, e, on, high, made)) in
            (inr (inr high), (used, a, b, (λ f. absurd (f e)), λ _ f. cc))
      ]
    ]
  ]
