-- ===== src/ResourceDefinition/CopyTests.antt =====
-- The theorem about deep copies at a list of one object with one condition.
use kubernetes_examples.Prelude.{ℕ, ◌<◌, ◌≡◌, refl, String, List, [], ◌∷◌, some, arith}
use kubernetes_examples.Kube.Memory.{IsBelow}
use kubernetes_examples.Kube.DeepCopy.{CopyLib}
use kubernetes_examples.Kube.DeepCopyLaws.{Reading, AreBelow}
use kubernetes_examples.Kube.DeepCopyLists.{AreMade, show_list, write_conditions, write_items}
use kubernetes_examples.ResourceDefinition.Types.{Condition}
use kubernetes_examples.ResourceDefinition.DeepCopy.{
  XxxIn, XxxListIn, XxxHeap, deep_copy_xxx_list, deep_copy_xxx_list-separate,
}

-- Metadata are texts, which are copied by value.
abbrev by_value : CopyLib Condition String String ℕ
by_value = record {
  copy_condition = λ c. c;
  copy_meta = λ m x. (m, x);
  copy_list_meta = λ l x. (l, x);
}

abbrev texts : Reading by_value String
texts = record {
  meta = λ m x. m;
  list_meta = λ l x. l;
  same_condition = λ c. refl;
  same_meta = λ m x. refl;
  same_list = λ l x. refl;
  kept_meta = λ m m' x. refl;
  kept_meta_list = λ l m' x. refl;
  kept_list_list = λ l l' x. refl;
  kept_list_meta = λ m l' x. refl;
}

abbrev running : Condition
running = record { type = "Ready"; status = "True"; reason = "up"; message = "" }

abbrev one : XxxIn String
one = record {
  type_meta = record { kind = "XXX"; api_version = "apps/v1beta1" };
  meta = "one";
  spec = record { display_name = "One"; description = "" };
  status = record {
    fields = record { phase = "Running"; observed_generation = 1 };
    conditions = some 0;
  };
}

abbrev list : XxxListIn String
list = record {
  type_meta = record { kind = "XXXList"; api_version = "apps/v1beta1" };
  list_meta = "list";
  items = some 0;
}

abbrev heap : XxxHeap String ℕ
heap = record {
  conditions = record { next = 1; cell = λ p. running ∷ [] };
  items = record { next = 1; cell = λ p. one ∷ [] };
  metas = 0;
}

heap-AreMade : AreMade heap (some 0)
unfolding AreMade AreBelow IsBelow
heap-AreMade = (omega arith, (omega arith, tt))

deep_copy_xxx_list-separate_example :
    (l' : XxxListIn String) × (later : XxxHeap String ℕ) × (deep_copy_xxx_list by_value
        (some list)
        heap
      ≡ (some l', later))
    × (show_list by_value texts later l' ≡ show_list by_value texts heap list)
    × (show_list by_value texts later list ≡ show_list by_value texts heap list)
    × ((p : ℕ) (cs : List Condition)
        → p < 1
        → show_list by_value texts (write_conditions p cs later) l'
          ≡ show_list by_value texts later l')
    × ((p : ℕ) (xs : List (XxxIn String))
        → p < 1
        → show_list by_value texts (write_items p xs later) l' ≡ show_list by_value texts later l')
deep_copy_xxx_list-separate_example =
    deep_copy_xxx_list-separate by_value texts list heap heap-AreMade
