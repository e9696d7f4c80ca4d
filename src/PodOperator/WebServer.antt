-- ===== src/PodOperator/WebServer.antt =====
-- A cluster with one PodManager, whose API server keeps its names apart: the parameters of the theorems about
-- the life of a PodManager.
use kubernetes_examples.Prelude.{
  ℕ, str_eq_iff, Bool, ◌∙◌, ap, String, true, false, ◌≡◌, refl, inl, inr, List, [], ◌∷◌, ◌++◌,
  Option, none, some, Mem, Bool-cases, if◌then◌else◌, str_eq, sym, str_eq_refl, arith,
}
use kubernetes_examples.Kube.Objects.{Pod}
use kubernetes_examples.Kube.Effect.{err, not_found, already_exists, ok, Result}
use kubernetes_examples.Kube.Client.{Client}
use kubernetes_examples.Kube.Store.{Store, plain_meta, has_pod, member}
use kubernetes_examples.PodOperator.Types.{PodManager}
use kubernetes_examples.PodOperator.Controller.{finalizer_name}
use kubernetes_examples.PodOperator.Lifecycle.{IsQuiet, IsGuarded, OwnServer}
use kubernetes_examples.PodOperator.Tests.{key}

-- The PodManager of the request is the only one that is found.
abbrev identified : Option PodManager → Result PodManager
identified none = err (not_found "no object")
identified (some pm) =
    if str_eq pm.meta.name "web"
    then (if str_eq pm.meta.namespace "default"
        then (if str_eq pm.meta.uid "u1" then ok pm else err (not_found "another object"))
        else err (not_found "no object"))
    else err (not_found "no object")

abbrev names : List Pod → List String
names [] = []
names (p ∷ ps) = p.meta.name ∷ names ps

abbrev pub drop_pods : String → List Pod → List Pod
drop_pods name [] = []
drop_pods name (p ∷ ps) =
    let rest = drop_pods name ps in if str_eq p.meta.name name then rest else p ∷ rest

abbrev web_stored : Store PodManager → Option PodManager
web_stored s = s.object

abbrev with_status : PodManager → Option PodManager → Option PodManager
with_status x none = none
with_status x (some pm) = some (record pm { status = x.status })

-- A PodManager in deletion goes with its last finalizer.
abbrev pub left_by : Option ℕ → List String → PodManager → Option PodManager
left_by none fs x = some x
left_by (some _) [] x = none
left_by (some _) (_ ∷ _) x = some x

abbrev pub left_after : PodManager → Option PodManager
left_after x = left_by x.meta.deletion_timestamp x.meta.finalizers x

unfoldable pub web_client : Client (Store PodManager) PodManager
unfolding has_pod
web_client = record {
  get = λ key s. (identified s.object, s);
  update = λ x s. (none, record s { object = left_after x });
  update_status = λ x s. (none, record s { object = with_status x s.object });
  list = λ ns labels s. (ok s.pods, s);
  create = λ p s.
      if has_pod p.meta.name s.pods
      then (some (already_exists "pod exists"), s)
      else (none, record s { pods = s.pods ++ p ∷ [] });
  delete = λ p s.
      if has_pod p.meta.name s.pods
      then (none, record s { pods = drop_pods p.meta.name s.pods })
      else (some (not_found "no pod"), s);
}

pub listed-named :
    (name : String) (ps : List Pod)
    → Mem name (names ps)
    → (p : Pod) × (p.meta.name ≡ name) × Mem p ps
unfolding Mem
listed-named name [] m = absurd m
listed-named name (p ∷ ps) (inl e) = (p, sym e, inl refl)
listed-named name (p ∷ ps) (inr m) = let (q, e, there) = listed-named name ps m in (q, e, inr there)

pub drop_pods-fewer :
    (name m : String) (ps : List Pod) → Mem m (names (drop_pods name ps)) → Mem m (names ps)
unfolding Mem
drop_pods-fewer name m [] h = h
drop_pods-fewer name m (p ∷ ps) h = ground (arith, h, drop_pods-fewer name m ps)

drop_pods-none : (name : String) (ps : List Pod) → Mem name (names (drop_pods name ps)) → ⊥
unfolding Mem
drop_pods-none name [] h = h
drop_pods-none name (p ∷ ps) h = elim (Bool-cases (str_eq p.meta.name name)) [
  | inl t ↦ drop_pods-none name ps (rw t at h)
  | inr f ↦ elim (rw f at h) [
    | inl e ↦ ground (arith, f, e, str_eq_refl name)
    | inr m ↦ drop_pods-none name ps m
  ]
]

has_pod-names : (name : String) (ps : List Pod) → Mem name (names ps) → has_pod name ps ≡ true
unfolding Mem has_pod
has_pod-names name [] m = absurd m
has_pod-names name (p ∷ ps) (inl e) = ground (arith, e, str_eq_refl name)
has_pod-names name (p ∷ ps) (inr m) = ground (arith, has_pod-names name ps m)

pub member-snoc : (f : String) (gs : List String) → member f (gs ++ f ∷ []) ≡ true
unfolding member
member-snoc f [] = ground (arith, str_eq_refl f)
member-snoc f (g ∷ gs) = ground (arith, member-snoc f gs)

abbrev web_object : Result PodManager → Option PodManager
web_object (ok pm) = some pm
web_object (err _) = none

pub found-web :
    (pm : PodManager) (o : Option PodManager)
    → identified o ≡ ok pm
    → (pm.meta.name ≡ "web")
      × (pm.meta.namespace ≡ "default")
      × (pm.meta.uid ≡ "u1")
      × (o ≡ some pm)
found-web pm none e = absurd (ground (arith, e))
found-web pm (some x) e = elim (Bool-cases (str_eq x.meta.name "web")) [
  | inr f ↦ absurd (ground (arith, e, f))
  | inl a ↦ elim (Bool-cases (str_eq x.meta.namespace "default")) [
    | inr f ↦ absurd (ground (arith, e, a, f))
    | inl b ↦ elim (Bool-cases (str_eq x.meta.uid "u1")) [
      | inr f ↦ absurd (ground (arith, e, a, b, f))
      | inl c ↦
          let same : some x ≡ some pm = ap web_object (rw (a, b, c) at e) in
          rw (← ap given same)
            ((str_eq_iff _ _).0 a, (str_eq_iff _ _).0 b, (str_eq_iff _ _).0 c, refl)
    ]
  ]
]
  where
    given : Option PodManager → PodManager
    given none = pm
    given (some y) = y

abbrev bears_finalizer : Option PodManager → Bool
bears_finalizer none = false
bears_finalizer (some pm) = member finalizer_name pm.meta.finalizers

pub status-IsGuarded :
    (x : PodManager) (o : Option PodManager)
    → IsGuarded plain_meta (λ p. p) o
    → IsGuarded plain_meta (λ p. p) (with_status x o)
unfolding plain_meta
status-IsGuarded x none g = g
status-IsGuarded x (some pm) (y, e, t) =
    (record pm { status = x.status }, refl, ap bears_finalizer e ∙ t)

abbrev web_alive : Store PodManager → List String
web_alive s = names s.pods

abbrev items_of : Result (List Pod) → List Pod
items_of (ok ps) = ps
items_of (err _) = []

pub created-object :
    (p : Pod) (w : Store PodManager)
    → IsGuarded plain_meta web_stored w
    → IsGuarded plain_meta web_stored (web_client.create p w).1
unfolding web_client
created-object p w g = elim (Bool-cases (has_pod p.meta.name w.pods)) [
  | inl t ↦ rw t g
  | inr f ↦ rw f g
]

pub deleted-IsQuiet :
    (p : Pod) (w : Store PodManager)
    → IsQuiet plain_meta web_stored web_alive w (web_client.delete p w).1
unfolding web_client
deleted-IsQuiet p w = elim (Bool-cases (has_pod p.meta.name w.pods)) [
  | inl t ↦ rw t ((λ g. g), λ m h. drop_pods-fewer p.meta.name m w.pods h)
  | inr f ↦ rw f ((λ g. g), λ m h. h)
]

pub deleted-gone :
    (p : Pod) (w : Store PodManager) → Mem p.meta.name (web_alive (web_client.delete p w).1) → ⊥
unfolding web_client
deleted-gone p w m = elim (Bool-cases (has_pod p.meta.name w.pods)) [
  | inl t ↦ drop_pods-none p.meta.name w.pods (rw t at m)
  | inr f ↦ let t = has_pod-names p.meta.name w.pods (rw f at m) in ground (arith, f, t)
]

left_by-some :
    (t : Option ℕ) (fs : List String) (x : PodManager)
    → member finalizer_name fs ≡ true
    → left_by t fs x ≡ some x
unfolding member
left_by-some none fs x h = refl
left_by-some (some _) [] x h = absurd (ground (arith, h))
left_by-some (some _) (_ ∷ _) x h = refl

pub left_guarded :
    (x : PodManager)
    → plain_meta.contains_finalizer x.meta finalizer_name ≡ true
    → left_after x ≡ some x
unfolding plain_meta
left_guarded x t = left_by-some x.meta.deletion_timestamp x.meta.finalizers x t

unfoldable pub web_server : OwnServer web_client plain_meta key
unfolding web_client plain_meta
web_server = record {
  uid = "u1";
  stored = web_stored;
  alive = web_alive;
  get-quiet = λ w. ((λ g. g), λ name m. m);
  get-found = λ pm w e. let (n, ns, u, s) = found-web pm w.object e in (n, ns, u, λ t. (pm, s, t));
  list-quiet = λ ns labels w. ((λ g. g), λ name m. m);
  list-complete = λ pm items w n ns u e name m. rw (ap items_of e) at (listed-named name w.pods m);
  create-guarded = λ p w g. created-object p w g;
  delete-quiet = λ p w. deleted-IsQuiet p w;
  delete-gone = λ p w t m. deleted-gone p w m;
  update-alive = λ x w name m. m;
  update-guarded = λ x w t g. (x, left_guarded x t, t);
  update_status-quiet = λ x w. (status-IsGuarded x w.object, λ name m. m);
}
