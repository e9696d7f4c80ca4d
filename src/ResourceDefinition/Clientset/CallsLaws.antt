-- ===== src/ResourceDefinition/Clientset/CallsLaws.antt =====
-- The client for tests stands for the typed client: the same calls, and lists that hold what matches.
use kubernetes_examples.Prelude.Results.{returned}
use kubernetes_examples.Prelude.{
  String, Bool, true, false, ◌≡◌, ◌↔◌, refl, inl, inr, List, [], ◌∷◌, Option, some, StringMap, Mem,
  Bool-cases, arith,
}
use kubernetes_examples.ResourceDefinition.Types.{Xxx, XxxList}
use kubernetes_examples.ResourceDefinition.Clientset.Rest.{ListOptions, Error}
use kubernetes_examples.ResourceDefinition.Clientset.Typed.{zero_list}
use kubernetes_examples.ResourceDefinition.Clientset.Fake.{
  xxxs_resource, xxxs_kind, FakeLib, xxx_list, list_action, matching, label_or, select_items,
  fake_list,
}
use kubernetes_examples.ResourceDefinition.Clientset.Calls.{Operation, list_op}

-- A List must not be asked with the option to watch: on a server it is then a watch.
unfoldable pub IsPlain : Operation → Type 0
IsPlain (list_op opts) = opts.watch ≡ false
IsPlain _ = Unit {0}

unfoldable pub ArePlain : List Operation → Type 0
unfolding IsPlain
ArePlain [] = Unit {0}
ArePlain (o ∷ os) = IsPlain o × ArePlain os

matching-Mem :
    {L : Type 0} (matches : L → StringMap → Bool) (label : L) (x : Xxx) (items : List Xxx)
    → Mem x (matching matches label items) ↔ (Mem x items × (matches label x.meta.labels ≡ true))
unfolding matching Mem
matching-Mem matches label x [] = ground arith
matching-Mem matches label x (item ∷ items) =
    let ih = matching-Mem matches label x items in
    elim (Bool-cases (matches label item.meta.labels)) [
      | inl e ↦ rw e (
        (λ h. elim h [
          | inl same ↦ (inl same, rw same e)
          | inr later ↦ let (a, b) = ih.0 later in (inr a, b)
        ]),
        λ (h, fits). elim h [ inl same ↦ inl same | inr later ↦ inr (ih.1 (later, fits)) ],
      )
      | inr e ↦ rw e (
        (λ h. let (a, b) = ih.0 h in (inr a, b)),
        λ (h, fits). elim h [
          | inl same ↦ ground (arith, rw same at fits, e)
          | inr later ↦ ih.1 (later, fits)
        ],
      )
    ]

-- Where the fake answers with a list, List returns its `ListMeta` and of its items exactly those whose
-- labels match the selector of the options, or all that the empty selector matches where there is none;
-- an error beside the list is passed on.
fake_list-selects :
    {W S L : Type 0} (lib : FakeLib W S L) (ns : String) (opts : ListOptions) (w w' : W)
    (l : XxxList) (e : Option Error)
    → lib.invokes (list_action xxxs_resource xxxs_kind ns opts) (xxx_list zero_list) w
      ≡ ((some (xxx_list l), e), w')
    → (r : XxxList) × (fake_list lib ns opts w ≡ (returned (some r, e), w'))
      × (r.list_meta ≡ l.list_meta)
      × ((x : Xxx)
          → Mem x r.items ↔ (
              Mem x l.items
              × (lib.matches (label_or lib.everything (lib.extract opts)) x.meta.labels ≡ true)))
unfolding fake_list select_items
fake_list-selects lib ns opts w w' l e answered = (
  record zero_list {
    list_meta = l.list_meta;
    items = matching lib.matches (label_or lib.everything (lib.extract opts)) l.items;
  },
  rw answered refl,
  refl,
  λ x. matching-Mem lib.matches (label_or lib.everything (lib.extract opts)) x l.items,
)
