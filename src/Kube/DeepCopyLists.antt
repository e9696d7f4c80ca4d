-- ===== src/Kube/DeepCopyLists.antt =====
-- Deep copies of lists, and what writes in place do afterwards.
use kubernetes_examples.Prelude.{ℕ, ◌≤◌, ◌<◌, ◌≡◌, refl, ap, ◌∙◌, List, [], ◌∷◌, Option, none, some}
use kubernetes_examples.Kube.Memory.{
  Memory, Slice, elements, write_cell, make_slice, IsBelow, IsFrom, Extends, Extends-refl,
  Extends-trans, IsFrom-mono, make_slice-Extends, make_slice-shows, make_slice-IsFrom, write_below,
  write_from,
}
use kubernetes_examples.Kube.DeepCopy.{
  ObjectIn, ListIn, Heap, CopyLib, copy_object, copy_items, copy_item_slice, copy_list,
}
use kubernetes_examples.Kube.DeepCopyLaws.{
  Reading, show_object, show_items, AreBelow, AreFrom, Keeps, Keeps-shows, Keeps-refl, Keeps-trans,
  shows-Keeps, copy_object-lem, copy_items-lem,
}

-- Conditions, or items, written in place at an address.
abbrev pub write_conditions : {C O X : Type 0} → ℕ → List C → Heap C O X → Heap C O X
write_conditions p cs heap = record heap { conditions = write_cell p cs heap.conditions }

abbrev pub write_items : {C O X : Type 0} → ℕ → List O → Heap C O X → Heap C O X
write_items p os heap = record heap { items = write_cell p os heap.items }

-- The slices of a list, and of its items, have been made.
unfoldable pub AreMade : {C T M S F X : Type 0} → Heap C (ObjectIn T M S F) X → Slice → Type 0
AreMade heap none = Unit {0}
AreMade heap (some p) = (p < heap.items.next) × AreBelow heap.conditions.next (heap.items.cell p)

module _ {C T M L S F X V : Type 0} (lib : CopyLib C M L X) (read : Reading lib V) where
  unfoldable pub show_slice :
      Heap C (ObjectIn T M S F) X
      → Option (List (ObjectIn T M S F))
      → Option (List (T × V × S × F × Option (List C)))
  show_slice heap none = none
  show_slice heap (some os) = some (show_items lib read heap os)

  -- What a list shows.
  unfoldable pub show_list :
      Heap C (ObjectIn T M S F) X
      → ListIn T L
      → T × V × Option (List (T × V × S × F × Option (List C)))
  show_list heap l = (
    l.type_meta,
    read.list_meta l.list_meta heap.metas,
    show_slice heap (elements heap.items l.items),
  )

  object_unwritten :
      (n p : ℕ) (cs : List C) (o : ObjectIn T M S F) (heap : Heap C (ObjectIn T M S F) X)
      → p < n
      → IsFrom n o.status.conditions
      → show_object lib read (write_conditions p cs heap) o ≡ show_object lib read heap o
  unfolding show_object
  object_unwritten n p cs o heap h f =
      rw (write_below n p cs heap.conditions o.status.conditions h f) refl

  items_unwritten :
      (n p : ℕ) (cs : List C) (os : List (ObjectIn T M S F)) (heap : Heap C (ObjectIn T M S F) X)
      → p < n
      → AreFrom n os
      → show_items lib read (write_conditions p cs heap) os ≡ show_items lib read heap os
  unfolding show_items AreFrom
  items_unwritten n p cs [] heap h f = refl
  items_unwritten n p cs (o ∷ os) heap h (f, fs) =
      rw (object_unwritten n p cs o heap h f, items_unwritten n p cs os heap h fs) refl

  object_below :
      (n p : ℕ) (cs : List C) (o : ObjectIn T M S F) (heap : Heap C (ObjectIn T M S F) X)
      → n ≤ p
      → IsBelow n o.status.conditions
      → show_object lib read (write_conditions p cs heap) o ≡ show_object lib read heap o
  unfolding show_object
  object_below n p cs o heap h f =
      rw (write_from n p cs heap.conditions o.status.conditions h f) refl

  -- What items show does not depend on the memory of the items.
  items_apart :
      (os : List (ObjectIn T M S F)) (heap : Heap C (ObjectIn T M S F) X)
      (mem : Memory (ObjectIn T M S F))
      → show_items lib read (record heap { items = mem }) os ≡ show_items lib read heap os
  unfolding show_items show_object
  items_apart os heap mem = refl

  -- A copy of an object whose conditions have been made shows what the object shows, and so does the object
  -- afterwards. Conditions that are then written in place to what was there before do not show in the copy, and
  -- those that are written to what the copy has made do not show in the object.
  pub copy_object-separate :
      (o : ObjectIn T M S F) (heap : Heap C (ObjectIn T M S F) X)
      → IsBelow heap.conditions.next o.status.conditions
      → let (o', later) = copy_object lib o heap in
        (show_object lib read later o' ≡ show_object lib read heap o)
        × (show_object lib read later o ≡ show_object lib read heap o)
        × ((p : ℕ) (cs : List C)
            → p < heap.conditions.next
            → show_object lib read (write_conditions p cs later) o' ≡ show_object lib read later o')
        × ((p : ℕ) (cs : List C)
            → heap.conditions.next ≤ p
            → show_object lib read (write_conditions p cs later) o ≡ show_object lib read later o)
  copy_object-separate o heap h =
      let (o', later) = copy_object lib o heap in
      let (same, keeps, new, _, _) = copy_object-lem lib read o heap h in
      (
        same,
        Keeps-shows lib read o keeps h,
        (λ p cs below. object_unwritten heap.conditions.next p cs o' later below new),
        λ p cs above. object_below heap.conditions.next p cs o later above h,
      )

  copy_slice-shows :
      (s : Slice) (heap : Heap C (ObjectIn T M S F) X)
      → AreMade heap s
      → let (s', later) = copy_item_slice lib s heap in
        (show_slice later (elements later.items s') ≡ show_slice heap (elements heap.items s))
        × Keeps lib read heap later
        × Extends heap.items later.items
        × IsFrom heap.items.next s'
        × ((p : ℕ) (cs : List C)
            → p < heap.conditions.next
            → show_slice (write_conditions p cs later) (elements later.items s')
              ≡ show_slice later (elements later.items s'))
  unfolding copy_item_slice AreMade show_slice elements IsFrom
  copy_slice-shows none heap h =
      (refl, Keeps-refl lib read heap, Extends-refl heap.items, tt, λ p cs b. refl)
  copy_slice-shows (some q) heap (_, h) =
      let (os', heap1) = copy_items lib (heap.items.cell q) heap in
      let (same, keeps, new, items) = copy_items-lem lib read (heap.items.cell q) heap h in
      let mem = (make_slice os' heap1.items).1 in
      let made = make_slice-shows os' heap1.items in
      let ext : Extends heap1.items mem = make_slice-Extends os' heap1.items in
      let ext0 : Extends heap.items heap1.items = rw items (Extends-refl heap.items) in
      let from : IsFrom heap1.items.next (make_slice os' heap1.items).0 =
        make_slice-IsFrom os' heap1.items in
      (
        rw made (ap some (items_apart os' heap1 mem ∙ same)),
        record { conditions = keeps.conditions; metas = keeps.metas; lists = keeps.lists },
        Extends-trans ext0 ext,
        IsFrom-mono (make_slice os' heap1.items).0 ext0.grows from,
        λ p cs below. rw made (
            ap some (
              items_unwritten heap.conditions.next p cs os' (record heap1 { items = mem }) below
                new)),
      )

  slice_apart :
      (x : Option (List (ObjectIn T M S F))) (heap : Heap C (ObjectIn T M S F) X)
      (mem : Memory (ObjectIn T M S F))
      → show_slice (record heap { items = mem }) x ≡ show_slice heap x
  unfolding show_slice
  slice_apart none heap mem = refl
  slice_apart (some os) heap mem = ap some (items_apart os heap mem)

  slice-Keeps :
      {a b : Heap C (ObjectIn T M S F) X} (s : Slice)
      → Keeps lib read a b
      → AreMade a s
      → show_slice b (elements a.items s) ≡ show_slice a (elements a.items s)
  unfolding show_slice elements AreMade
  slice-Keeps none k h = refl
  slice-Keeps {a} (some p) k (_, h) = ap some (shows-Keeps lib read (a.items.cell p) k h)

  made-IsBelow :
      (s : Slice) (heap : Heap C (ObjectIn T M S F) X) → AreMade heap s → IsBelow heap.items.next s
  unfolding AreMade IsBelow
  made-IsBelow none heap h = tt
  made-IsBelow (some p) heap (h, _) = h

  made-metas :
      (s : Slice) (heap : Heap C (ObjectIn T M S F) X) (x : X)
      → AreMade heap s
      → AreMade (record heap { metas = x }) s
  unfolding AreMade
  made-metas none heap x h = tt
  made-metas (some p) heap x h = h

  -- A copy of a list whose slices have been made shows what the list shows, and so does the list afterwards.
  -- Neither conditions nor items that are then written in place to what was there before show in the copy.
  pub copy_list-separate :
      (l : ListIn T L) (heap : Heap C (ObjectIn T M S F) X)
      → AreMade heap l.items
      → let (l', later) = copy_list lib l heap in
        (show_list later l' ≡ show_list heap l)
        × (show_list later l ≡ show_list heap l)
        × ((p : ℕ) (cs : List C)
            → p < heap.conditions.next
            → show_list (write_conditions p cs later) l' ≡ show_list later l')
        × ((p : ℕ) (os : List (ObjectIn T M S F))
            → p < heap.items.next
            → show_list (write_items p os later) l' ≡ show_list later l')
  unfolding copy_list show_list
  copy_list-separate l heap h =
      let metas = (lib.copy_list_meta l.list_meta heap.metas).1 in
      let heap0 : Heap C (ObjectIn T M S F) X = record heap { metas = metas } in
      let (s', later) = copy_item_slice lib l.items heap0 in
      let (same, keeps, ext, new, apart) =
        copy_slice-shows l.items heap0 (made-metas l.items heap metas h) in
      let first : Keeps lib read heap heap0 = record {
        conditions = Extends-refl heap.conditions;
        metas = λ m. read.kept_meta_list l.list_meta m heap.metas;
        lists = λ l'. read.kept_list_list l.list_meta l' heap.metas;
      } in
      let old = ext.shows l.items (made-IsBelow l.items heap h) in
      let own =
        keeps.lists (lib.copy_list_meta l.list_meta heap.metas).0
        ∙ read.same_list l.list_meta heap.metas in
      (
        rw (own, same, slice-Keeps l.items first h) refl,
        rw
            (
              keeps.lists l.list_meta,
              first.lists l.list_meta,
              old,
              slice-Keeps l.items (Keeps-trans lib read first keeps) h,
            )
            refl,
        (λ p cs below. rw (apart p cs below) refl),
        λ p os below.
            rw (write_below heap.items.next p os later.items s' below new)
              (rw (slice_apart (elements later.items s') later (write_cell p os later.items)) refl),
      )
