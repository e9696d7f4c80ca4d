-- ===== src/Kube/Client.antt =====
-- The API server and the helpers of controller-runtime, which the controllers call and do not
-- implement: parameters of the model.
use kubernetes_examples.Prelude.{false, ℕ, String, Bool, List, [], ◌∷◌, Option, StringMap}
use kubernetes_examples.Kube.Objects.{
  NamespacedName, GroupVersionKind, OwnerReference, ObjectMeta, Pod,
}
use kubernetes_examples.Kube.Effect.{ApiError, Result, done, Call, M}

-- `time.Second`, in nanoseconds.
abbrev pub second : ℕ
second = 1000000000

-- `ctrl.Result`
pub record CtrlResult : Type 0 where
  pub requeue : Bool
  pub requeue_after : ℕ

abbrev pub no_requeue : CtrlResult
no_requeue = record { requeue = false; requeue_after = 0 }

-- `client.Client` over objects of type `T` and Pods. A call takes the world to its answer and the
-- world after it; `none` is a nil error.
pub record Client (W T : Type 0) : Type 0 where
  pub get : NamespacedName → W → Result T × W
  pub update : T → W → Option ApiError × W
  pub update_status : T → W → Option ApiError × W
  pub list : String → StringMap → W → Result (List Pod) × W
  pub create : Pod → W → Option ApiError × W
  pub delete : Pod → W → Option ApiError × W

-- `controllerutil` and `metav1.NewControllerRef`.
pub record MetaLib : Type 0 where
  pub contains_finalizer : ObjectMeta → String → Bool
  pub add_finalizer : ObjectMeta → String → ObjectMeta
  pub remove_finalizer : ObjectMeta → String → ObjectMeta
  pub new_controller_ref : ObjectMeta → GroupVersionKind → OwnerReference

module _ {W T : Type 0} (api : Client W T) where
  abbrev pub get : NamespacedName → M W T (Result T)
  get key w = let (r, w') = api.get key w in (done r, Call.get key ∷ [], w')

  abbrev pub update : T → M W T (Option ApiError)
  update x w = let (r, w') = api.update x w in (done r, Call.update x ∷ [], w')

  abbrev pub update_status : T → M W T (Option ApiError)
  update_status x w = let (r, w') = api.update_status x w in (done r, Call.update_status x ∷ [], w')

  abbrev pub list : String → StringMap → M W T (Result (List Pod))
  list ns labels w = let (r, w') = api.list ns labels w in (done r, Call.list ns labels ∷ [], w')

  abbrev pub create : Pod → M W T (Option ApiError)
  create pod w = let (r, w') = api.create pod w in (done r, Call.create pod ∷ [], w')

  abbrev pub delete : Pod → M W T (Option ApiError)
  delete pod w = let (r, w') = api.delete pod w in (done r, Call.delete pod ∷ [], w')

-- `Recorder.Eventf` answers nothing; the event is kept among the calls.
abbrev pub eventf : {W T : Type 0} → (kind reason message : String) → M W T (Unit {0})
eventf kind reason message w = (done tt, Call.event kind reason message ∷ [], w)
