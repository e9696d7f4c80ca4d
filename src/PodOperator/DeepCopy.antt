-- ===== src/PodOperator/DeepCopy.antt =====
-- pod-operator/api/v1/zz_generated.deepcopy.go, on a heap in which the conditions of a status and the items of
-- a list are slices.
use kubernetes_examples.Prelude.{ℕ, ◌≤◌, ◌<◌, ◌≡◌, refl, String, List, Option, some}
use kubernetes_examples.Prelude.Int.{ℤ}
use kubernetes_examples.Kube.Memory.{Memory, IsBelow}
use kubernetes_examples.Kube.DeepCopy.{
  StatusIn, ObjectIn, ListIn, Heap, CopyLib, copy_status, copy_object, copy_list, copy_pointer,
  copied_object,
}
use kubernetes_examples.Kube.DeepCopyLaws.{Reading, show_object}
use kubernetes_examples.Kube.DeepCopyLists.{write_conditions, copy_object-separate}
use kubernetes_examples.PodOperator.Types.{PodCondition, PodManagerSpec}

-- `metav1.TypeMeta`.
pub record TypeMeta : Type 0 where
  pub kind : String
  pub api_version : String

-- The fields of `PodManagerStatus` besides its conditions.
pub record PodManagerFields : Type 0 where
  pub ready_replicas : ℤ
  pub current_replicas : ℤ

-- `PodManager` in memory, and the heap; `M` is `metav1.ObjectMeta` there.
abbrev pub PodManagerIn : Type 0 → Type 0
PodManagerIn M = ObjectIn TypeMeta M PodManagerSpec PodManagerFields

abbrev pub PodManagerHeap : Type 0 → Type 0 → Type 0
PodManagerHeap M X = Heap PodCondition (PodManagerIn M) X

-- A condition holds texts and a time; `copy_time` is `DeepCopyInto` of `metav1.Time`.
unfoldable pub copy_pod_condition : (ℕ → ℕ) → PodCondition → PodCondition
copy_pod_condition copy_time c = record c {
  last_transition_time = copy_time c.last_transition_time;
}

unfoldable pub copy_pod_manager_spec : PodManagerSpec → PodManagerSpec
copy_pod_manager_spec spec = spec

unfoldable pub deep_copy_pod_condition :
    {H : Type 0} → (ℕ → ℕ) → Option PodCondition → H → Option PodCondition × H
deep_copy_pod_condition copy_time c heap =
    copy_pointer (λ given h. (copy_pod_condition copy_time given, h)) c heap

unfoldable pub deep_copy_pod_manager_spec :
    {H : Type 0} → Option PodManagerSpec → H → Option PodManagerSpec × H
deep_copy_pod_manager_spec s heap = copy_pointer (λ spec h. (copy_pod_manager_spec spec, h)) s heap

-- What the parts of a PodManager are copied with.
abbrev pub copies :
    {M L X : Type 0} → (ℕ → ℕ) → CopyLib PodCondition M L X → CopyLib PodCondition M L X
copies copy_time given = record given { copy_condition = copy_pod_condition copy_time }

module _ {M L X : Type 0} (copy_time : ℕ → ℕ) (given : CopyLib PodCondition M L X) where
  unfoldable pub copy_pod_manager_status :
      StatusIn PodManagerFields
      → Memory PodCondition
      → StatusIn PodManagerFields × Memory PodCondition
  copy_pod_manager_status s mem = copy_status (copies copy_time given) s mem

  unfoldable pub copy_pod_manager :
      PodManagerIn M → PodManagerHeap M X → PodManagerIn M × PodManagerHeap M X
  copy_pod_manager pm heap = copy_object (copies copy_time given) pm heap

  unfoldable pub copy_pod_manager_list :
      ListIn TypeMeta L → PodManagerHeap M X → ListIn TypeMeta L × PodManagerHeap M X
  copy_pod_manager_list l heap = copy_list (copies copy_time given) l heap

  unfoldable pub deep_copy_pod_manager_status :
      Option (StatusIn PodManagerFields)
      → Memory PodCondition
      → Option (StatusIn PodManagerFields) × Memory PodCondition
  deep_copy_pod_manager_status s mem = copy_pointer copy_pod_manager_status s mem

  unfoldable pub deep_copy_pod_manager :
      Option (PodManagerIn M) → PodManagerHeap M X → Option (PodManagerIn M) × PodManagerHeap M X
  deep_copy_pod_manager pm heap = copy_pointer copy_pod_manager pm heap

  unfoldable pub deep_copy_pod_manager_list :
      Option (ListIn TypeMeta L)
      → PodManagerHeap M X
      → Option (ListIn TypeMeta L) × PodManagerHeap M X
  deep_copy_pod_manager_list l heap = copy_pointer copy_pod_manager_list l heap

  -- `DeepCopyObject` gives the copy as a `runtime.Object`, and nil where there is no copy.
  unfoldable pub deep_copy_pod_manager_object :
      Option (PodManagerIn M) → PodManagerHeap M X → Option (PodManagerIn M) × PodManagerHeap M X
  deep_copy_pod_manager_object pm heap = copied_object (deep_copy_pod_manager pm heap)

  unfoldable pub deep_copy_pod_manager_list_object :
      Option (ListIn TypeMeta L)
      → PodManagerHeap M X
      → Option (ListIn TypeMeta L) × PodManagerHeap M X
  deep_copy_pod_manager_list_object l heap = copied_object (deep_copy_pod_manager_list l heap)

  module _ {V : Type 0} (read : Reading (copies copy_time given) V) where
    -- `DeepCopy` of a PodManager whose conditions have been made is a PodManager that shows the same, as the
    -- first one does afterwards. Conditions that are then written in place to what was there before do not
    -- show in the copy, and those that are written to what the copy has made do not show in the first one.
    deep_copy_pod_manager-separate :
        (pm : PodManagerIn M) (heap : PodManagerHeap M X)
        → IsBelow heap.conditions.next pm.status.conditions
        → (pm' : PodManagerIn M) × (later : PodManagerHeap M X) × (deep_copy_pod_manager
              (some pm)
              heap
            ≡ (some pm', later))
          × (show_object (copies copy_time given) read later pm'
              ≡ show_object (copies copy_time given) read heap pm)
          × (show_object (copies copy_time given) read later pm
              ≡ show_object (copies copy_time given) read heap pm)
          × ((p : ℕ) (cs : List PodCondition)
              → p < heap.conditions.next
              → show_object (copies copy_time given) read (write_conditions p cs later) pm'
                ≡ show_object (copies copy_time given) read later pm')
          × ((p : ℕ) (cs : List PodCondition)
              → heap.conditions.next ≤ p
              → show_object (copies copy_time given) read (write_conditions p cs later) pm
                ≡ show_object (copies copy_time given) read later pm)
    unfolding deep_copy_pod_manager copy_pointer copy_pod_manager
    deep_copy_pod_manager-separate pm heap made =
        let (same, still, old, new) =
          copy_object-separate (copies copy_time given) read pm heap made in
        (
          (copy_object (copies copy_time given) pm heap).0,
          (copy_object (copies copy_time given) pm heap).1,
          refl,
          same,
          still,
          old,
          new,
        )
