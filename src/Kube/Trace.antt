-- ===== src/Kube/Trace.antt =====
-- What a run asked of the API server: the calls of one kind, in order.
use kubernetes_examples.Prelude.{◌≡◌, refl, ap, List, [], ◌∷◌, ◌++◌}
use kubernetes_examples.Kube.Objects.{Pod}
use kubernetes_examples.Kube.Effect.{Call, update, update_status, create, delete}

module _ {T : Type 0} where
  unfoldable pub creates : List (Call T) → List Pod
  creates [] = []
  creates (create p ∷ cs) = p ∷ creates cs
  creates (_ ∷ cs) = creates cs

  unfoldable pub deletes : List (Call T) → List Pod
  deletes [] = []
  deletes (delete p ∷ cs) = p ∷ deletes cs
  deletes (_ ∷ cs) = deletes cs

  unfoldable pub updates : List (Call T) → List T
  updates [] = []
  updates (update x ∷ cs) = x ∷ updates cs
  updates (_ ∷ cs) = updates cs

  unfoldable pub status_updates : List (Call T) → List T
  status_updates [] = []
  status_updates (update_status x ∷ cs) = x ∷ status_updates cs
  status_updates (_ ∷ cs) = status_updates cs

  pub creates-append : (cs ds : List (Call T)) → creates (cs ++ ds) ≡ creates cs ++ creates ds
  unfolding creates
  creates-append [] ds = refl
  creates-append (create p ∷ cs) ds = ap (λ l. p ∷ l) (creates-append cs ds)
  creates-append (_ ∷ cs) ds = creates-append cs ds

  pub deletes-append : (cs ds : List (Call T)) → deletes (cs ++ ds) ≡ deletes cs ++ deletes ds
  unfolding deletes
  deletes-append [] ds = refl
  deletes-append (delete p ∷ cs) ds = ap (λ l. p ∷ l) (deletes-append cs ds)
  deletes-append (_ ∷ cs) ds = deletes-append cs ds

  pub updates-append : (cs ds : List (Call T)) → updates (cs ++ ds) ≡ updates cs ++ updates ds
  unfolding updates
  updates-append [] ds = refl
  updates-append (update x ∷ cs) ds = ap (λ l. x ∷ l) (updates-append cs ds)
  updates-append (_ ∷ cs) ds = updates-append cs ds

  pub status_updates-append :
      (cs ds : List (Call T)) → status_updates (cs ++ ds) ≡ status_updates cs ++ status_updates ds
  unfolding status_updates
  status_updates-append [] ds = refl
  status_updates-append (update_status x ∷ cs) ds = ap (λ l. x ∷ l) (status_updates-append cs ds)
  status_updates-append (_ ∷ cs) ds = status_updates-append cs ds
