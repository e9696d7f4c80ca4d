-- ===== src/PodOperator/CopyTests.antt =====
-- The theorem about deep copies at a PodManager with one condition.
use kubernetes_examples.Prelude.{ℕ, refl, String, [], ◌∷◌, some, arith}
use kubernetes_examples.Prelude.Int.{pos}
use kubernetes_examples.Kube.Memory.{IsBelow}
use kubernetes_examples.Kube.DeepCopy.{CopyLib}
use kubernetes_examples.Kube.DeepCopyLaws.{Reading}
use kubernetes_examples.PodOperator.Types.{PodCondition}
use kubernetes_examples.PodOperator.DeepCopy.{
  copy_pod_condition, copies, PodManagerIn, PodManagerHeap,
}

-- Metadata are texts, which are copied by value.
abbrev by_value : CopyLib PodCondition String String ℕ
by_value = record {
  copy_condition = λ c. c;
  copy_meta = λ m x. (m, x);
  copy_list_meta = λ l x. (l, x);
}

abbrev same_time : ℕ → ℕ
same_time t = t

texts : Reading (copies same_time by_value) String
unfolding copy_pod_condition
texts = record {
  meta = λ m x. m;
  list_meta = λ l x. l;
  same_condition = λ c. refl;
  same_meta = λ m x. refl;
  same_list = λ l x. refl;
  kept_meta = λ m m' x. refl;
  kept_meta_list = λ l m' x. refl;
  kept_list_list = λ l l' x. refl;
  kept_list_meta = λ m l' x. refl;
}

abbrev ready : PodCondition
ready = record { type = "Ready"; status = "True"; last_transition_time = 3; message = "" }

abbrev web : PodManagerIn String
web = record {
  type_meta = record { kind = "PodManager"; api_version = "apps.mycompany.com/v1" };
  meta = "web";
  spec = record { replicas = pos 2; image = "nginx" };
  status = record {
    fields = record { ready_replicas = pos 2; current_replicas = pos 2 };
    conditions = some 0;
  };
}

abbrev heap : PodManagerHeap String ℕ
heap = record {
  conditions = record { next = 1; cell = λ p. ready ∷ [] };
  items = record { next = 0; cell = λ p. [] };
  metas = 0;
}

web-IsBelow : IsBelow 1 (some 0)
unfolding IsBelow
web-IsBelow = omega arith
