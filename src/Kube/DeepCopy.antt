-- ===== src/Kube/DeepCopy.antt =====
-- The code that deepcopy-gen writes for a resource whose status holds a slice of conditions, and for lists of
-- it. `*out = *in` copies every field, so that nothing of `out` is left, and the slices are shared until the
-- lines that follow replace them.
use kubernetes_examples.Prelude.{List, [], ◌∷◌, map, Option, none, some}
use kubernetes_examples.Kube.Memory.{Memory, Slice, make_slice}

-- A status with the fields `F` besides its conditions.
pub record StatusIn (F : Type 0) : Type 0 where
  pub fields : F
  pub conditions : Slice

-- A resource with the type `T`, the metadata `M` and the specification `S`.
pub record ObjectIn (T M S F : Type 0) : Type 0 where
  pub type_meta : T
  pub meta : M
  pub spec : S
  pub status : StatusIn F

pub record ListIn (T M : Type 0) : Type 0 where
  pub type_meta : T
  pub list_meta : M
  pub items : Slice

-- The memory of the conditions `C` and of the items `O`, and the memory `X` of the metadata.
pub record Heap (C O X : Type 0) : Type 0 where
  pub conditions : Memory C
  pub items : Memory O
  pub metas : X

-- `DeepCopyInto` of a condition and of metadata.
pub record CopyLib (C M L X : Type 0) : Type 0 where
  pub copy_condition : C → C
  pub copy_meta : M → X → M × X
  pub copy_list_meta : L → X → L × X

module _ {C M L X : Type 0} (lib : CopyLib C M L X) where
  -- `if in.Conditions != nil { … }`
  unfoldable pub copy_conditions : Slice → Memory C → Slice × Memory C
  copy_conditions none mem = (none, mem)
  copy_conditions (some p) mem = make_slice (map lib.copy_condition (mem.cell p)) mem

  unfoldable pub copy_status : {F : Type 0} → StatusIn F → Memory C → StatusIn F × Memory C
  copy_status s mem =
      let (conditions, mem') = copy_conditions s.conditions mem in
      (record s { conditions = conditions }, mem')

  unfoldable pub copy_object :
      {T S F : Type 0}
      → ObjectIn T M S F
      → Heap C (ObjectIn T M S F) X
      → ObjectIn T M S F × Heap C (ObjectIn T M S F) X
  copy_object o heap =
      let (meta, metas) = lib.copy_meta o.meta heap.metas in
      let (status, conditions) = copy_status o.status heap.conditions in
      (
        record o { meta = meta; status = status },
        record heap { metas = metas; conditions = conditions },
      )

  -- The loop over the items.
  unfoldable pub copy_items :
      {T S F : Type 0}
      → List (ObjectIn T M S F)
      → Heap C (ObjectIn T M S F) X
      → List (ObjectIn T M S F) × Heap C (ObjectIn T M S F) X
  copy_items [] heap = ([], heap)
  copy_items (o ∷ os) heap =
      let (o', heap1) = copy_object o heap in
      let (os', heap2) = copy_items os heap1 in (o' ∷ os', heap2)

  -- `if in.Items != nil { … }`; the loop writes to the new slice, which nothing else shows yet.
  unfoldable pub copy_item_slice :
      {T S F : Type 0} → Slice → Heap C (ObjectIn T M S F) X → Slice × Heap C (ObjectIn T M S F) X
  copy_item_slice none heap = (none, heap)
  copy_item_slice (some p) heap =
      let (os, heap1) = copy_items (heap.items.cell p) heap in
      let (items, mem) = make_slice os heap1.items in (items, record heap1 { items = mem })

  unfoldable pub copy_list :
      {T S F : Type 0}
      → ListIn T L
      → Heap C (ObjectIn T M S F) X
      → ListIn T L × Heap C (ObjectIn T M S F) X
  copy_list l heap =
      let (list_meta, metas) = lib.copy_list_meta l.list_meta heap.metas in
      let (items, heap1) = copy_item_slice l.items (record heap { metas = metas }) in
      (record l { list_meta = list_meta; items = items }, heap1)

-- `DeepCopy` of a pointer: nil of nil, and else a new object. The type of what a non-nil pointer points to stands
-- for the object.
unfoldable pub copy_pointer : {A H : Type 0} → (A → H → A × H) → Option A → H → Option A × H
copy_pointer copy none heap = (none, heap)
copy_pointer copy (some a) heap = let (b, heap') = copy a heap in (some b, heap')

-- `if c := in.DeepCopy(); c != nil { return c }; return nil`
unfoldable pub copied_object : {A H : Type 0} → Option A × H → Option A × H
copied_object (none, heap) = (none, heap)
copied_object (some c, heap) = (some c, heap)
