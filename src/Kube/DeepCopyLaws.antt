-- ===== src/Kube/DeepCopyLaws.antt =====
-- Deep copies show the same as the original, and share no slice with what was there before.
use kubernetes_examples.Prelude.{
  arith, ℕ, ◌≡◌, refl, ap, ◌∙◌, List, [], ◌∷◌, map, Option, none, some,
}
use kubernetes_examples.Kube.Memory.{
  IsBelow-mono, make_slice, IsFrom-mono, make_slice-IsFrom, Memory, Slice, elements, IsBelow,
  IsFrom, Extends, Extends-refl, Extends-trans, make_slice-Extends, make_slice-shows,
}
use kubernetes_examples.Kube.DeepCopy.{
  copy_items, ObjectIn, Heap, CopyLib, copy_conditions, copy_status, copy_object,
}

-- What metadata shows, and the documented behaviour of its `DeepCopyInto`: the copy shows the same, and
-- nothing that is there already changes.
pub record Reading {C M L X : Type 0} (lib : CopyLib C M L X) (V : Type 0) : Type 0 where
  pub meta : M → X → V
  pub list_meta : L → X → V
  pub same_condition : (c : C) → lib.copy_condition c ≡ c
  pub same_meta : (m : M) (x : X) → meta (lib.copy_meta m x).0 (lib.copy_meta m x).1 ≡ meta m x
  pub same_list :
      (l : L) (x : X)
      → list_meta (lib.copy_list_meta l x).0 (lib.copy_list_meta l x).1 ≡ list_meta l x
  pub kept_meta : (m m' : M) (x : X) → meta m' (lib.copy_meta m x).1 ≡ meta m' x
  pub kept_meta_list : (l : L) (m' : M) (x : X) → meta m' (lib.copy_list_meta l x).1 ≡ meta m' x
  pub kept_list_list : (l l' : L) (x : X) → list_meta l' (lib.copy_list_meta l x).1 ≡ list_meta l' x
  pub kept_list_meta :
      (m : M) (l' : L) (x : X) → list_meta l' (lib.copy_meta m x).1 ≡ list_meta l' x

-- The conditions of an object, and of all objects of a list, lie below an address, or from there on.
unfoldable pub AreBelow : {T M S F : Type 0} → ℕ → List (ObjectIn T M S F) → Type 0
AreBelow n [] = Unit {0}
AreBelow n (o ∷ os) = IsBelow n o.status.conditions × AreBelow n os

unfoldable pub AreFrom : {T M S F : Type 0} → ℕ → List (ObjectIn T M S F) → Type 0
AreFrom n [] = Unit {0}
AreFrom n (o ∷ os) = IsFrom n o.status.conditions × AreFrom n os

module _ {C M L X V : Type 0} (lib : CopyLib C M L X) (read : Reading lib V) where
  map-copy : (cs : List C) → map lib.copy_condition cs ≡ cs
  map-copy [] = refl
  map-copy (c ∷ cs) = rw (read.same_condition c, map-copy cs) refl

  copy_conditions-lem :
      (s : Slice) (mem : Memory C)
      → IsBelow mem.next s
      → (elements (copy_conditions lib s mem).1 (copy_conditions lib s mem).0 ≡ elements mem s)
        × Extends mem (copy_conditions lib s mem).1
        × IsFrom mem.next (copy_conditions lib s mem).0
        × IsBelow (copy_conditions lib s mem).1.next (copy_conditions lib s mem).0
  unfolding copy_conditions IsFrom IsBelow elements make_slice
  copy_conditions-lem none mem h = (refl, Extends-refl mem, tt, tt)
  copy_conditions-lem (some p) mem h = (
    make_slice-shows (map lib.copy_condition (mem.cell p)) mem ∙ ap some (map-copy (mem.cell p)),
    make_slice-Extends (map lib.copy_condition (mem.cell p)) mem,
    make_slice-IsFrom (map lib.copy_condition (mem.cell p)) mem,
    omega arith,
  )

module _ {C T M L S F X V : Type 0} (lib : CopyLib C M L X) (read : Reading lib V) where
  -- What an object shows.
  unfoldable pub show_object :
      Heap C (ObjectIn T M S F) X → ObjectIn T M S F → T × V × S × F × Option (List C)
  show_object heap o = (
    o.type_meta,
    read.meta o.meta heap.metas,
    o.spec,
    o.status.fields,
    elements heap.conditions o.status.conditions,
  )

  unfoldable pub show_items :
      Heap C (ObjectIn T M S F) X → List (ObjectIn T M S F) → List (T × V × S × F × Option (List C))
  show_items heap os = map (show_object heap) os

  -- What was there shows in the later heap as before.
  pub record Keeps (heap later : Heap C (ObjectIn T M S F) X) : Type 0 where
    pub conditions : Extends heap.conditions later.conditions
    pub metas : (m : M) → read.meta m later.metas ≡ read.meta m heap.metas
    pub lists : (l : L) → read.list_meta l later.metas ≡ read.list_meta l heap.metas

  pub copy_object-lem :
      (o : ObjectIn T M S F) (heap : Heap C (ObjectIn T M S F) X)
      → IsBelow heap.conditions.next o.status.conditions
      → (show_object (copy_object lib o heap).1 (copy_object lib o heap).0 ≡ show_object heap o)
        × Keeps heap (copy_object lib o heap).1
        × IsFrom heap.conditions.next (copy_object lib o heap).0.status.conditions
        × IsBelow
            (copy_object lib o heap).1.conditions.next
            (copy_object lib o heap).0.status.conditions
        × ((copy_object lib o heap).1.items ≡ heap.items)
  unfolding copy_object copy_status show_object
  copy_object-lem o heap h =
      let (same, ext, new, old) =
        copy_conditions-lem lib read o.status.conditions heap.conditions h in
      (
        rw (same, read.same_meta o.meta heap.metas) refl,
        record {
          conditions = ext;
          metas = λ m. read.kept_meta o.meta m heap.metas;
          lists = λ l. read.kept_list_meta o.meta l heap.metas;
        },
        new,
        old,
        refl,
      )

  pub Keeps-refl : (h : Heap C (ObjectIn T M S F) X) → Keeps h h
  Keeps-refl h = record {
    conditions = Extends-refl h.conditions;
    metas = λ m. refl;
    lists = λ l. refl;
  }

  pub Keeps-trans : {a b c : Heap C (ObjectIn T M S F) X} → Keeps a b → Keeps b c → Keeps a c
  Keeps-trans f g = record {
    conditions = Extends-trans f.conditions g.conditions;
    metas = λ m. g.metas m ∙ f.metas m;
    lists = λ l. g.lists l ∙ f.lists l;
  }

  pub Keeps-shows :
      {a b : Heap C (ObjectIn T M S F) X} (o : ObjectIn T M S F)
      → Keeps a b
      → IsBelow a.conditions.next o.status.conditions
      → show_object b o ≡ show_object a o
  unfolding show_object
  Keeps-shows o k h = rw (k.conditions.shows o.status.conditions h, k.metas o.meta) refl

  pub below-Keeps :
      {a b : Heap C (ObjectIn T M S F) X} (os : List (ObjectIn T M S F))
      → Keeps a b
      → AreBelow a.conditions.next os
      → AreBelow b.conditions.next os
  unfolding AreBelow
  below-Keeps [] k h = tt
  below-Keeps (o ∷ os) k (h, hs) =
      (IsBelow-mono o.status.conditions k.conditions.grows h, below-Keeps os k hs)

  pub shows-Keeps :
      {a b : Heap C (ObjectIn T M S F) X} (os : List (ObjectIn T M S F))
      → Keeps a b
      → AreBelow a.conditions.next os
      → show_items b os ≡ show_items a os
  unfolding AreBelow show_items
  shows-Keeps [] k h = refl
  shows-Keeps (o ∷ os) k (h, hs) = rw (Keeps-shows o k h, shows-Keeps os k hs) refl

  from-Keeps :
      {a b : Heap C (ObjectIn T M S F) X} (os : List (ObjectIn T M S F))
      → Keeps a b
      → AreFrom b.conditions.next os
      → AreFrom a.conditions.next os
  unfolding AreFrom
  from-Keeps [] k h = tt
  from-Keeps (o ∷ os) k (h, hs) =
      (IsFrom-mono o.status.conditions k.conditions.grows h, from-Keeps os k hs)

  pub copy_items-lem :
      (os : List (ObjectIn T M S F)) (heap : Heap C (ObjectIn T M S F) X)
      → AreBelow heap.conditions.next os
      → (show_items (copy_items lib os heap).1 (copy_items lib os heap).0 ≡ show_items heap os)
        × Keeps heap (copy_items lib os heap).1
        × AreFrom heap.conditions.next (copy_items lib os heap).0
        × ((copy_items lib os heap).1.items ≡ heap.items)
  unfolding copy_items AreBelow AreFrom show_items
  copy_items-lem [] heap h = (refl, Keeps-refl heap, tt, refl)
  copy_items-lem (o ∷ os) heap (h, hs) =
      let heap1 = (copy_object lib o heap).1 in
      let (same, keeps, new, old, items) = copy_object-lem o heap h in
      let (sames, keeps1, news, items1) = copy_items-lem os heap1 (below-Keeps os keeps hs) in
      (
        rw (Keeps-shows (copy_object lib o heap).0 keeps1 old, same, sames, shows-Keeps os keeps hs)
            refl,
        Keeps-trans keeps keeps1,
        (new, from-Keeps _ keeps news),
        items1 ∙ items,
      )
