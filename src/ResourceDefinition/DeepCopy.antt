-- ===== src/ResourceDefinition/DeepCopy.antt =====
-- resourcedefinition/apps/v1beta1/zz_generated.deepcopy.go, on a heap in which the conditions of a status and
-- the items of a list are slices.
use kubernetes_examples.Prelude.{ℕ, ◌<◌, ◌≡◌, refl, String, List, Option, some}
use kubernetes_examples.Kube.Memory.{Memory}
use kubernetes_examples.Kube.DeepCopy.{
  StatusIn, ObjectIn, ListIn, Heap, CopyLib, copy_status, copy_object, copy_list, copy_pointer,
  copied_object,
}
use kubernetes_examples.Kube.DeepCopyLaws.{Reading}
use kubernetes_examples.Kube.DeepCopyLists.{
  AreMade, show_list, write_conditions, write_items, copy_list-separate,
}
use kubernetes_examples.ResourceDefinition.Types.{TypeMeta, Condition, XxxSpec}

-- The fields of `XXXStatus` besides its conditions.
pub record XxxFields : Type 0 where
  pub phase : String
  pub observed_generation : ℕ

-- `XXXStatus`, `XXX` and `XXXList` in memory; `M` and `L` are `metav1.ObjectMeta` and `metav1.ListMeta` there.
abbrev pub XxxStatusIn : Type 0
XxxStatusIn = StatusIn XxxFields

abbrev pub XxxIn : Type 0 → Type 0
XxxIn M = ObjectIn TypeMeta M XxxSpec XxxFields

abbrev pub XxxListIn : Type 0 → Type 0
XxxListIn L = ListIn TypeMeta L

abbrev pub XxxHeap : Type 0 → Type 0 → Type 0
XxxHeap M X = Heap Condition (XxxIn M) X

-- A specification holds texts only.
unfoldable pub copy_xxx_spec : XxxSpec → XxxSpec
copy_xxx_spec spec = spec

unfoldable pub deep_copy_xxx_spec : {H : Type 0} → Option XxxSpec → H → Option XxxSpec × H
deep_copy_xxx_spec s heap = copy_pointer (λ spec h. (copy_xxx_spec spec, h)) s heap

module _ {M L X : Type 0} (lib : CopyLib Condition M L X) where
  unfoldable pub copy_xxx_status : XxxStatusIn → Memory Condition → XxxStatusIn × Memory Condition
  copy_xxx_status s mem = copy_status lib s mem

  unfoldable pub copy_xxx : XxxIn M → XxxHeap M X → XxxIn M × XxxHeap M X
  copy_xxx x heap = copy_object lib x heap

  unfoldable pub copy_xxx_list : XxxListIn L → XxxHeap M X → XxxListIn L × XxxHeap M X
  copy_xxx_list l heap = copy_list lib l heap

  unfoldable pub deep_copy_xxx_status :
      Option XxxStatusIn → Memory Condition → Option XxxStatusIn × Memory Condition
  deep_copy_xxx_status s mem = copy_pointer copy_xxx_status s mem

  unfoldable pub deep_copy_xxx : Option (XxxIn M) → XxxHeap M X → Option (XxxIn M) × XxxHeap M X
  deep_copy_xxx x heap = copy_pointer copy_xxx x heap

  unfoldable pub deep_copy_xxx_list :
      Option (XxxListIn L) → XxxHeap M X → Option (XxxListIn L) × XxxHeap M X
  deep_copy_xxx_list l heap = copy_pointer copy_xxx_list l heap

  -- `DeepCopyObject` gives the copy as a `runtime.Object`, and nil where there is no copy.
  unfoldable pub deep_copy_xxx_object :
      Option (XxxIn M) → XxxHeap M X → Option (XxxIn M) × XxxHeap M X
  deep_copy_xxx_object x heap = copied_object (deep_copy_xxx x heap)

  unfoldable pub deep_copy_xxx_list_object :
      Option (XxxListIn L) → XxxHeap M X → Option (XxxListIn L) × XxxHeap M X
  deep_copy_xxx_list_object l heap = copied_object (deep_copy_xxx_list l heap)

  module _ {V : Type 0} (read : Reading lib V) where
    -- `DeepCopy` of a list whose slices have been made is a list that shows the same, as the list itself does
    -- afterwards; neither conditions nor items that are then written in place to what was there before show
    -- in the copy.
    pub deep_copy_xxx_list-separate :
        (l : XxxListIn L) (heap : XxxHeap M X)
        → AreMade heap l.items
        → (l' : XxxListIn L) × (later : XxxHeap M X) × (deep_copy_xxx_list (some l) heap
            ≡ (some l', later))
          × (show_list lib read later l' ≡ show_list lib read heap l)
          × (show_list lib read later l ≡ show_list lib read heap l)
          × ((p : ℕ) (cs : List Condition)
              → p < heap.conditions.next
              → show_list lib read (write_conditions p cs later) l' ≡ show_list lib read later l')
          × ((p : ℕ) (xs : List (XxxIn M))
              → p < heap.items.next
              → show_list lib read (write_items p xs later) l' ≡ show_list lib read later l')
    unfolding deep_copy_xxx_list copy_pointer copy_xxx_list
    deep_copy_xxx_list-separate l heap made =
        let (same, still, conditions, items) = copy_list-separate lib read l heap made in
        ((copy_list lib l heap).0, (copy_list lib l heap).1, refl, same, still, conditions, items)
