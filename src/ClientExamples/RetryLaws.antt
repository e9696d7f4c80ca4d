-- ===== src/ClientExamples/RetryLaws.antt =====
-- The update of a Deployment that others change at the same time.
use kubernetes_examples.Prelude.{
  List-cases, String, ◌≡◌, refl, ap, sym, ◌∙◌, inl, inr, List, ◌∷◌, Option, none, some, arith,
}
use kubernetes_examples.Prelude.Int.{pos}
use kubernetes_examples.Prelude.Results.{returned}
use kubernetes_examples.ClientExamples.Deployments.{Container, Deployment, DeploymentClient, Retry}
use kubernetes_examples.ClientExamples.Retrying.{
  get_edit_update, VersionedServer, retry_edit-IsEdit,
}
use kubernetes_examples.ClientExamples.DemoDeployment.{edited, update_demo}

-- One replica, and the image of the first container.
abbrev pub scaled_down : Deployment → Container → List Container → Deployment
scaled_down e c cs = record e {
  replicas = some (pos 1);
  containers = record c { image = "nginx:1.13" } ∷ cs;
}

some_of : Deployment → Option Deployment → Deployment
some_of d none = d
some_of d (some x) = x

edited-scaled :
    (e x : Deployment)
    → edited e ≡ some x
    → (c : Container) × (cs : List Container) × (e.containers ≡ c ∷ cs) × (x ≡ scaled_down e c cs)
unfolding edited some_of
edited-scaled e x h = elim (List-cases e.containers) [
  | inl empty ↦ absurd (ground (arith, h, empty))
  | inr (c, cs, held) ↦
      let made : edited e ≡ some (scaled_down e c cs) = rw (edited, held) refl in
      (c, cs, held, ap (some_of e) (sym h ∙ made))
]

pub edited-version :
    (e x : Deployment) → edited e ≡ some x → x.resource_version ≡ e.resource_version
edited-version e x h =
    let (c, cs, held, same) = edited-scaled e x h in ap (λ d. d.resource_version) same

module _ {W : Type 0} (client : DeploymentClient W) where
  -- The server counts the versions of Deployments.
  abbrev pub DemoServer : Type 0
  DemoServer =
      VersionedServer (client.get "demo-deployment") client.update edited (λ d. d.resource_version)
        (λ v d. record d { resource_version = v })

  module _ (server : DemoServer) where
    -- The function that is retried ran in a world `u`, without an error, and ended in the world `w'`: when it
    -- had read, the Deployment `e` was stored, and it sent `e` with the replicas and the image of the first
    -- container changed, which is stored in `w'` under some version.
    abbrev pub IsEdited : W → Type 0
    IsEdited w' =
        (u : W) × (e : Deployment) × (c : Container) × (cs : List Container) × (version : String)
        × (get_edit_update (client.get "demo-deployment") client.update edited u
            ≡ (returned none, w'))
        × (server.stored (client.get "demo-deployment" u).1 ≡ some e)
        × (e.containers ≡ c ∷ cs)
        × (w' ≡ (client.update (scaled_down e c cs) (client.get "demo-deployment" u).1).1)
        × (server.stored w' ≡ some (record (scaled_down e c cs) { resource_version = version }))

    -- On a server that takes an update only under the version that it stores, where a version that was read
    -- and is stored again stands for the same Deployment, and with `RetryOnConflict` as documented: where the
    -- update of the program returns, it ended with a run that read, edited and sent the Deployment, and the
    -- Deployment differs from what the server had stored when that run sent its update, whoever had changed
    -- it, in the replicas, the image of the first container and the version only.
    pub update_demo-IsEdited :
        (retry : Retry W) (w : W)
        → (update_demo client retry w).0 ≡ returned tt
        → IsEdited (update_demo client retry w).1
    unfolding update_demo
    update_demo-IsEdited retry w h =
        let (u, e, x, version, ran, before, made, last_call, after) =
          retry_edit-IsEdit (client.get "demo-deployment") client.update edited
            (λ d. d.resource_version) (λ n d. record d { resource_version = n }) server retry w h in
        let (c, cs, held, same) = edited-scaled e x made in
        (
          u,
          e,
          c,
          cs,
          version,
          ran,
          before,
          held,
          last_call ∙ ap (λ d. (client.update d (client.get "demo-deployment" u).1).1) same,
          after ∙ ap {A = Deployment} (λ d. some (record d { resource_version = version })) same,
        )
