-- ===== src/PodOperator/PodsGone.antt =====
-- The loop of `handleFinalizer`: what the server does beside it, and that the Pods are gone behind it.
use kubernetes_examples.Prelude.{
  Bool-cases, String, ◌≡◌, refl, inl, inr, List, [], ◌∷◌, Option, none, some, Mem, arith,
}
use kubernetes_examples.Kube.Objects.{Pod, NamespacedName}
use kubernetes_examples.Kube.Effect.{◌>>◌, is_not_found, ApiError, done}
use kubernetes_examples.Kube.Client.{delete, Client, MetaLib}
use kubernetes_examples.Kube.Along.{IsAlong, >>=-IsAlong}
use kubernetes_examples.PodOperator.Types.{PodManager}
use kubernetes_examples.PodOperator.Controller.{report_deleting, delete_owned}
use kubernetes_examples.PodOperator.Lifecycle.{IsTolerated, IsGuarded, IsQuiet, OwnServer, IsOwned}

pub nobody : (names : List String) → ((name : String) → Mem name names → ⊥) → names ≡ []
unfolding Mem
nobody [] h = refl
nobody (n ∷ ns) h = absurd (h n (inl refl))

module _ {W : Type 0} (api : Client W PodManager) (lib : MetaLib) (req : NamespacedName)
    (server : OwnServer api lib req) where
  abbrev pub Guarded : W → Type 0
  Guarded w = IsGuarded lib server.stored w

  abbrev pub Quiet : W → W → Type 0
  Quiet w w' = IsQuiet lib server.stored server.alive w w'

  Quiet-refl : (w : W) → Quiet w w
  Quiet-refl w = ((λ g. g), λ name m. m)

  Quiet-trans : (u v w : W) → Quiet u v → Quiet v w → Quiet u w
  Quiet-trans u v w (f, a) (g, b) = ((λ x. g (f x)), λ name m. a name (b name m))

  pub Quiet-IsOwned :
      (w w' : W) → Quiet w w' → IsOwned api lib req server w → IsOwned api lib req server w'
  unfolding Mem
  Quiet-IsOwned w w' (f, a) (inr g) = inr (f g)
  Quiet-IsOwned w w' (f, a) (inl e) = inl (nobody (server.alive w') λ name m. rw e at (a name m))

  -- Deletions under the finalizer.
  report_deleting-Quiet :
      (p : Pod) (e : Option ApiError) → IsAlong Quiet (report_deleting api lib p e)
  unfolding report_deleting
  report_deleting-Quiet p none w = Quiet-refl w
  report_deleting-Quiet p (some e) w = elim (Bool-cases (is_not_found e)) [
    | inl t ↦ rw t (Quiet-refl w)
    | inr f ↦ rw f (Quiet-refl w)
  ]

  pub delete_owned-Quiet : (items : List Pod) → IsAlong Quiet (delete_owned api lib items)
  unfolding delete_owned
  delete_owned-Quiet [] = Quiet-refl
  delete_owned-Quiet (p ∷ ps) =
      >>=-IsAlong Quiet Quiet-trans (delete api p)
        (λ e. report_deleting api lib p e >> delete_owned api lib ps) (λ w. server.delete-quiet p w)
        λ e.
          >>=-IsAlong Quiet Quiet-trans (report_deleting api lib p e) (λ _. delete_owned api lib ps)
            (report_deleting-Quiet p e) λ _. delete_owned-Quiet ps

  delete_owned-cons :
      (p : Pod) (ps : List Pod) (w : W)
      → let run = delete_owned api lib (p ∷ ps) w in
        let rest = delete_owned api lib ps (api.delete p w).1 in
        run.0 ≡ done tt → IsTolerated (api.delete p w).0 × (rest.0 ≡ done tt) × (run.2 ≡ rest.2)
  unfolding delete_owned report_deleting
  delete_owned-cons p ps w h = ground (arith, h)

  pub delete_owned-gone :
      (items : List Pod) (p : Pod) (w : W)
      → let run = delete_owned api lib items w in
        run.0 ≡ done tt → Mem p items → Mem p.meta.name (server.alive run.2) → ⊥
  unfolding Mem
  delete_owned-gone [] p w h m alive = m
  delete_owned-gone (q ∷ qs) p w h m alive =
      let (gone, rest, world) = delete_owned-cons q qs w h in
      let still = rw world at alive in
      let w1 = (api.delete q w).1 in
      elim m [
        | inl same ↦
            server.delete-gone q w gone
              ((delete_owned-Quiet qs w1).1 q.meta.name (rw same at still))
        | inr later ↦ delete_owned-gone qs p w1 rest later still
      ]

  pub update-none :
      (x : PodManager) (w : W) → server.alive w ≡ [] → server.alive (api.update x w).1 ≡ []
  unfolding Mem
  update-none x w e =
      nobody (server.alive (api.update x w).1) λ name m. rw e at (server.update-alive x w name m)
