-- ===== src/Webhook/Calculate/DeepCopy.antt =====
-- webhook/using-kubebuilder/api/v1/zz_generated.deepcopy.go, on a heap in which the items of a list are a slice. The
-- copying of metadata is a parameter.
use kubernetes_examples.Prelude.{ℕ, ◌<◌, ◌≡◌, refl, ap, ◌∙◌, List, [], ◌∷◌, map, Option, none, some}
use kubernetes_examples.Prelude.Int.{ℤ}
use kubernetes_examples.Kube.Memory.{
  Memory, Slice, elements, write_cell, make_slice, IsBelow, make_slice-shows, make_slice-Extends,
  make_slice-IsFrom, write_below,
}
use kubernetes_examples.Kube.DeepCopy.{copy_pointer, copied_object}
use kubernetes_examples.Webhook.Calculate.Types.{CalculateSpec}

pub record CalculateStatus : Type 0 where
  pub result : ℤ

-- A `Calculate` and a `CalculateList` in memory, with the type `T` and the metadata `M` and `L`.
pub record CalculateIn (T M : Type 0) : Type 0 where
  pub type_meta : T
  pub meta : M
  pub spec : CalculateSpec
  pub status : CalculateStatus

pub record CalculateListIn (T L : Type 0) : Type 0 where
  pub type_meta : T
  pub list_meta : L
  pub items : Slice

-- The memory of the items, and the memory `X` of the metadata.
pub record CalculateHeap (T M X : Type 0) : Type 0 where
  pub items : Memory (CalculateIn T M)
  pub metas : X

-- `DeepCopyInto` of metadata.
pub record MetaCopies (M L X : Type 0) : Type 0 where
  pub copy_meta : M → X → M × X
  pub copy_list_meta : L → X → L × X

unfoldable pub copy_calculate_spec : CalculateSpec → CalculateSpec
copy_calculate_spec spec = spec

unfoldable pub copy_calculate_status : CalculateStatus → CalculateStatus
copy_calculate_status status = status

unfoldable pub deep_copy_calculate_spec :
    {H : Type 0} → Option CalculateSpec → H → Option CalculateSpec × H
deep_copy_calculate_spec s heap = copy_pointer (λ spec h. (copy_calculate_spec spec, h)) s heap

unfoldable pub deep_copy_calculate_status :
    {H : Type 0} → Option CalculateStatus → H → Option CalculateStatus × H
deep_copy_calculate_status s heap =
    copy_pointer (λ status h. (copy_calculate_status status, h)) s heap

module _ {T M L X : Type 0} (lib : MetaCopies M L X) where
  unfoldable pub copy_calculate : CalculateIn T M → X → CalculateIn T M × X
  copy_calculate c metas =
      let (meta, metas') = lib.copy_meta c.meta metas in (record c { meta = meta }, metas')

  -- The loop over the items.
  unfoldable pub copy_calculate_items : List (CalculateIn T M) → X → List (CalculateIn T M) × X
  copy_calculate_items [] metas = ([], metas)
  copy_calculate_items (c ∷ cs) metas =
      let (c', metas1) = copy_calculate c metas in
      let (cs', metas2) = copy_calculate_items cs metas1 in (c' ∷ cs', metas2)

  -- `if in.Items != nil { … }`; the loop writes to the new slice, which nothing else shows yet.
  unfoldable pub copy_calculate_slice : Slice → CalculateHeap T M X → Slice × CalculateHeap T M X
  copy_calculate_slice none heap = (none, heap)
  copy_calculate_slice (some p) heap =
      let (cs, metas) = copy_calculate_items (heap.items.cell p) heap.metas in
      let (items, mem) = make_slice cs heap.items in (items, record { items = mem; metas = metas })

  unfoldable pub copy_calculate_list :
      CalculateListIn T L → CalculateHeap T M X → CalculateListIn T L × CalculateHeap T M X
  copy_calculate_list l heap =
      let (list_meta, metas) = lib.copy_list_meta l.list_meta heap.metas in
      let (items, later) = copy_calculate_slice l.items (record heap { metas = metas }) in
      (record l { list_meta = list_meta; items = items }, later)

  unfoldable pub deep_copy_calculate : Option (CalculateIn T M) → X → Option (CalculateIn T M) × X
  deep_copy_calculate c metas = copy_pointer copy_calculate c metas

  unfoldable pub deep_copy_calculate_object :
      Option (CalculateIn T M) → X → Option (CalculateIn T M) × X
  deep_copy_calculate_object c metas = copied_object (deep_copy_calculate c metas)

  unfoldable pub deep_copy_calculate_list :
      Option (CalculateListIn T L)
      → CalculateHeap T M X
      → Option (CalculateListIn T L) × CalculateHeap T M X
  deep_copy_calculate_list l heap = copy_pointer copy_calculate_list l heap

  unfoldable pub deep_copy_calculate_list_object :
      Option (CalculateListIn T L)
      → CalculateHeap T M X
      → Option (CalculateListIn T L) × CalculateHeap T M X
  deep_copy_calculate_list_object l heap = copied_object (deep_copy_calculate_list l heap)

  -- What an item shows besides its metadata.
  abbrev shown : CalculateIn T M → T × CalculateSpec × CalculateStatus
  shown c = (c.type_meta, c.spec, c.status)

  abbrev shown_slice :
      Option (List (CalculateIn T M)) → Option (List (T × CalculateSpec × CalculateStatus))
  shown_slice none = none
  shown_slice (some cs) = some (map shown cs)

  copy_calculate_items-shown :
      (cs : List (CalculateIn T M)) (metas : X)
      → map shown (copy_calculate_items cs metas).0 ≡ map shown cs
  unfolding copy_calculate_items copy_calculate
  copy_calculate_items-shown [] metas = refl
  copy_calculate_items-shown (c ∷ cs) metas =
      ap (λ rest. shown c ∷ rest) (copy_calculate_items-shown cs (lib.copy_meta c.meta metas).1)

  -- A copy of a slice of items shows what the slice shows besides metadata, and the slice shows what it did.
  -- Items that are then written in place to what was there before do not show in the copy.
  copy_calculate_slice-separate :
      (s : Slice) (heap : CalculateHeap T M X)
      → IsBelow heap.items.next s
      → let (s', later) = copy_calculate_slice s heap in
        (shown_slice (elements later.items s') ≡ shown_slice (elements heap.items s))
        × (elements later.items s ≡ elements heap.items s)
        × ((p : ℕ) (cs : List (CalculateIn T M))
            → p < heap.items.next
            → elements (write_cell p cs later.items) s' ≡ elements later.items s')
  unfolding copy_calculate_slice elements
  copy_calculate_slice-separate none heap made = (refl, refl, λ p cs h. refl)
  copy_calculate_slice-separate (some q) heap made =
      let (cs', metas) = copy_calculate_items (heap.items.cell q) heap.metas in
      let made_new = make_slice-shows cs' heap.items in
      let old = (make_slice-Extends cs' heap.items).shows (some q) made in
      (
        ap shown_slice made_new
            ∙ ap some (copy_calculate_items-shown (heap.items.cell q) heap.metas),
        old,
        λ p cs h.
            write_below heap.items.next p cs (make_slice cs' heap.items).1
              (make_slice cs' heap.items).0 h (make_slice-IsFrom cs' heap.items),
      )
