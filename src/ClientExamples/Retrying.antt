-- ===== src/ClientExamples/Retrying.antt =====
-- What both Deployment examples do under `retry.RetryOnConflict`: an object is read, edited and sent back; and what
-- comes of it on a server that counts versions.
use kubernetes_examples.Prelude.{
  String, ◌≡◌, refl, inl, inr, Option, none, some, Option-cases, arith, ◌∙◌,
}
use kubernetes_examples.Prelude.Results.{Run, returned, panicked}
use kubernetes_examples.ClientExamples.ConfigMaps.{Script, panic, return, after_run, ◌>>=◌}
use kubernetes_examples.ClientExamples.Deployments.{
  CallError, Reply, ok, err, Reply-cases, Trial, Retried, last, again, Retry,
}

unfoldable pub error_of : {T : Type 0} → Reply T → Option CallError
error_of (ok _) = none
error_of (err e) = some e

unfoldable pub expect_none : {W : Type 0} → Option CallError → Script W (Unit {0})
expect_none none = return tt
expect_none (some _) = panic

module _ {W T : Type 0} (get : W → Reply T × W) (update : T → W → Reply T × W)
    (edit : T → Option T) where
  unfoldable pub send_edited : Option T → Trial W
  send_edited none w = (panicked, w)
  send_edited (some x) w = let (answer, w') = update x w in (returned (error_of answer), w')

  -- The function that is retried; an edit that fails is a panic, and so is a failed `Get`.
  unfoldable pub get_edit_update : Trial W
  get_edit_update w =
      let (got, w') = get w in elim got [ err _ ↦ (panicked, w') | ok d ↦ send_edited (edit d) w' ]

  -- `retry.RetryOnConflict`, and the panic where it returns an error.
  unfoldable pub retry_edit : Retry W → Script W (Unit {0})
  retry_edit retry = do e ← retry.retry_on_conflict get_edit_update; expect_none e

  module _ (version : T → String) (renewed : String → T → T) where
    -- A server with versions: `stored` is the object of the program. Others may act behind each call that
    -- reads, and then the version is another. An update is taken only under the version that is stored, and
    -- what it leaves is what was sent, under a new version. An edit leaves the version.
    pub record VersionedServer : Type 0 where
      pub stored : W → Option T
      pub get-version :
          (d : T) (w : W)
          → (get w).0 ≡ ok d
          → (e : T) → stored (get w).1 ≡ some e
          → version e ≡ version d
          → e ≡ d
      pub update-checked :
          (d sent : T) (w : W)
          → (update sent w).0 ≡ ok d
          → (e : T) × (stored w ≡ some e)
            × (version e ≡ version sent)
            × (stored (update sent w).1 ≡ some (renewed (version d) sent))
      pub edit-version : (d x : T) → edit d ≡ some x → version x ≡ version d

    module _ (server : VersionedServer) where
      -- The last run reads the object in a world `u`; what is stored then is edited, and the update that sends
      -- the edit leads to the world `w'`, where the edit is stored under some version.
      abbrev pub IsEdit : W → Type 0
      IsEdit w' =
          (u : W) × (e : T) × (x : T) × (number : String) × (get_edit_update u
            ≡ (returned none, w'))
          × (server.stored (get u).1 ≡ some e)
          × (edit e ≡ some x)
          × (w' ≡ (update x (get u).1).1)
          × (server.stored w' ≡ some (renewed number x))

      -- A version that was read and is still stored when the edited object is taken.
      sent-IsEdit :
          (d x y : T) (w : W)
          → (get w).0 ≡ ok d
          → edit d ≡ some x
          → (update x (get w).1).0 ≡ ok y
          → IsEdit (update x (get w).1).1
      unfolding get_edit_update send_edited error_of
      sent-IsEdit d x y w got edited answered =
          let u = (get w).1 in
          let (e, kept, number, after) = server.update-checked y x u answered in
          let same = server.get-version d w got e kept (number ∙ server.edit-version d x edited) in
          (
            w,
            d,
            x,
            version y,
            ground (arith, got, edited, answered),
            rw (← same) kept,
            edited,
            refl,
            after,
          )

      trial-IsEdit : (w : W) → (get_edit_update w).0 ≡ returned none → IsEdit (get_edit_update w).1
      unfolding get_edit_update send_edited error_of
      trial-IsEdit w h = elim (Reply-cases (get w).0) [
        | inr (x, e) ↦ absurd (ground (arith, h, e))
        | inl (d, e) ↦ elim (Option-cases (edit d)) [
          | inl unfit ↦ absurd (ground (arith, h, e, unfit))
          | inr (x, edited) ↦ elim (Reply-cases (update x (get w).1).0) [
            | inl (y, answered) ↦
                rw (get_edit_update, e, edited) (sent-IsEdit d x y w e edited answered)
            | inr (f, answered) ↦ absurd (ground (arith, h, e, edited, answered))
          ]
        ]
      ]

      Retried-IsEdit :
          (w w' : W) (r : Run (Option CallError))
          → Retried get_edit_update w r w'
          → r ≡ returned none
          → IsEdit w'
      Retried-IsEdit w _ _ (last _) h = trial-IsEdit w h
      Retried-IsEdit w w' r (again {u = u} text e rest) h = Retried-IsEdit u w' r rest h

      expected :
          (r : Run (Option CallError)) (u : W)
          → (after_run r u expect_none).0 ≡ returned tt
          → (r ≡ returned none) × ((after_run r u expect_none).1 ≡ u)
      unfolding expect_none
      expected (returned none) u h = (refl, refl)
      expected (returned (some e)) u h = absurd (ground (arith, h))
      expected panicked u h = absurd (ground (arith, h))

      -- A retried edit that returns is an edit of what was stored just before.
      pub retry_edit-IsEdit :
          (retry : Retry W) (w : W)
          → (retry_edit retry w).0 ≡ returned tt
          → IsEdit (retry_edit retry w).1
      unfolding retry_edit
      retry_edit-IsEdit retry w h =
          let run = retry.retry_on_conflict get_edit_update in
          let story = retry.as_documented get_edit_update w in
          let (ended, world) = expected (run w).0 (run w).1 h in
          rw world (Retried-IsEdit w (run w).1 (run w).0 story ended)
