-- ===== src/ResourceDefinition/Clientset/Calls.antt =====
-- The typed client and the client for tests as two implementations of `XXXInterface`: what they ask for.
use kubernetes_examples.Prelude.Results.{Run, returned}
use kubernetes_examples.Prelude.{
  String, Bool, true, false, List, [], ◌∷◌, Option, none, some, StringMap,
}
use kubernetes_examples.ResourceDefinition.Types.{Xxx, XxxList}
use kubernetes_examples.ResourceDefinition.Clientset.Rest.{
  ListOptions, Options, Verb, get, post, put, delete, patch, list_options, options, Setter, verb,
  namespace, resource, name, sub_resource, versioned_params, timeout, body, object, bytes,
  delete_options, Error, RestClient,
}
use kubernetes_examples.ResourceDefinition.Clientset.Typed.{
  get_xxx, list_xxx, watch_xxx, create_xxx, update_xxx, update_status_xxx, delete_xxx,
  delete_collection_xxx, patch_xxx,
}
use kubernetes_examples.ResourceDefinition.Clientset.Fake.{
  GroupVersionResource, Action, get_action, list_action, watch_action, create_action, update_action,
  update_subresource_action, delete_action, delete_collection_action, patch_subresource_action,
  FakeLib, fake_get, fake_list, fake_watch, fake_create, fake_update, fake_update_status,
  fake_delete, fake_delete_collection, fake_patch,
}

-- `XXXInterface`. A nil result is `none`.
pub record XxxInterface (W S : Type 0) : Type 0 where
  pub get_one : String → Options → W → Run (Option Xxx × Option Error) × W
  pub list_all : ListOptions → W → Run (Option XxxList × Option Error) × W
  pub watch_all : ListOptions → W → (Option S × Option Error) × W
  pub create_one : Xxx → Options → W → Run (Option Xxx × Option Error) × W
  pub update_one : Xxx → Options → W → Run (Option Xxx × Option Error) × W
  pub update_status_one : Xxx → Options → W → Run (Option Xxx × Option Error) × W
  pub delete_one : String → Options → W → Option Error × W
  pub delete_all : Options → ListOptions → W → Option Error × W
  pub patch_one :
      String → String → String → Options → List String → W → Run (Option Xxx × Option Error) × W

-- The typed client never answers nil.
abbrev answered : {A W : Type 0} → (A × Option Error) × W → Run (Option A × Option Error) × W
answered ((a, e), w) = (returned (some a, e), w)

unfoldable pub typed_xxxs : {W S : Type 0} → RestClient W S → String → XxxInterface W S
typed_xxxs client ns = record {
  get_one = λ n opts w. answered (get_xxx client ns n opts w);
  list_all = λ opts w. answered (list_xxx client ns opts w);
  watch_all = λ opts w. watch_xxx client ns opts w;
  create_one = λ x opts w. answered (create_xxx client ns x opts w);
  update_one = λ x opts w. answered (update_xxx client ns x opts w);
  update_status_one = λ x opts w. answered (update_status_xxx client ns x opts w);
  delete_one = λ n opts w. delete_xxx client ns n opts w;
  delete_all = λ opts list_opts w. delete_collection_xxx client ns opts list_opts w;
  patch_one = λ n pt d opts subs w. answered (patch_xxx client ns n pt d opts subs w);
}

unfoldable pub fake_xxxs : {W S L : Type 0} → FakeLib W S L → String → XxxInterface W S
fake_xxxs lib ns = record {
  get_one = λ n opts w. fake_get lib ns n opts w;
  list_all = λ opts w. fake_list lib ns opts w;
  watch_all = λ opts w. fake_watch lib ns opts w;
  create_one = λ x opts w. fake_create lib ns x opts w;
  update_one = λ x opts w. fake_update lib ns x opts w;
  update_status_one = λ x opts w. fake_update_status lib ns x opts w;
  delete_one = λ n opts w. fake_delete lib ns n opts w;
  delete_all = λ opts list_opts w. fake_delete_collection lib ns opts list_opts w;
  patch_one = λ n pt d opts subs w. fake_patch lib ns n pt d opts subs w;
}

-- A call as the API conventions of Kubernetes name it: a verb on a resource, in a namespace, of one object or
-- of none, and of a subresource; the object that is sent; and the type and the data of a patch.
pub data ApiVerb : Type 0 where
  api_get api_list api_watch api_create api_update api_delete api_delete_collection api_patch :
      ApiVerb

pub record ApiCall : Type 0 where
  pub api_verb : ApiVerb
  pub api_namespace : String
  pub api_resource : String
  pub api_name : Option String
  pub api_subresource : List String
  pub api_object : Option Xxx
  pub api_patch : Option (String × Option String)

-- What a request has been told so far.
record Draft : Type 0 where
  http : Option Verb
  watches : Bool
  in_namespace : String
  of_resource : String
  of_name : Option String
  of_subresource : List String
  of_object : Option Xxx
  of_bytes : Option String

abbrev told : Setter → Draft → Draft
told (verb v) d = record d { http = some v }
told (namespace ns) d = record d { in_namespace = ns }
told (resource r) d = record d { of_resource = r }
told (name n) d = record d { of_name = some n }
told (sub_resource subs) d = record d { of_subresource = subs }
told (versioned_params (list_options o)) d = record d { watches = o.watch }
told (versioned_params (options o)) d = d
told (timeout t) d = d
told (body (object x)) d = record d { of_object = some x }
told (body (bytes b)) d = record d { of_bytes = some b }
told (body (delete_options opts)) d = d

abbrev told_all : List Setter → Draft → Draft
told_all [] d = d
told_all (s ∷ ss) d = told_all ss (told s d)

-- GET of a name is get; GET of no name is watch or list, as the options say; DELETE of no name is
-- deletecollection.
abbrev named_verb : Verb → Option String → Bool → ApiVerb
named_verb get none true = api_watch
named_verb get none false = api_list
named_verb get (some n) watches = api_get
named_verb post n watches = api_create
named_verb put n watches = api_update
named_verb delete none watches = api_delete_collection
named_verb delete (some n) watches = api_delete
named_verb (patch pt) n watches = api_patch

abbrev patch_of : Verb → Option String → Option (String × Option String)
patch_of (patch pt) data' = some (pt, data')
patch_of _ data' = none

abbrev call_of_draft : Draft → Option ApiCall
call_of_draft d = elim d.http [
  | none ↦ none
  | some v ↦ some (record {
    api_verb = named_verb v d.of_name d.watches;
    api_namespace = d.in_namespace;
    api_resource = d.of_resource;
    api_name = d.of_name;
    api_subresource = d.of_subresource;
    api_object = d.of_object;
    api_patch = patch_of v d.of_bytes;
  })
]

unfoldable pub call_of_request : List Setter → Option ApiCall
call_of_request ss = call_of_draft (
    told_all ss (record {
      http = none;
      watches = false;
      in_namespace = "";
      of_resource = "";
      of_name = none;
      of_subresource = [];
      of_object = none;
      of_bytes = none;
    }))

abbrev call : ApiVerb → GroupVersionResource → String → Option String → List String → ApiCall
call v r ns n subs = record {
  api_verb = v;
  api_namespace = ns;
  api_resource = r.resource;
  api_name = n;
  api_subresource = subs;
  api_object = none;
  api_patch = none;
}

abbrev sending : Xxx → ApiCall → ApiCall
sending x c = record c { api_object = some x }

unfoldable pub call_of_action : Action → Option ApiCall
call_of_action (get_action r ns n) = some (call api_get r ns (some n) [])
call_of_action (list_action r k ns opts) = some (call api_list r ns none [])
call_of_action (watch_action r ns opts) = some (call api_watch r ns none [])
call_of_action (create_action r ns x) = some (sending x (call api_create r ns none []))
call_of_action (update_action r ns x) =
    some (sending x (call api_update r ns (some x.meta.name) []))
call_of_action (update_subresource_action r sub ns x) =
    some (sending x (call api_update r ns (some x.meta.name) (sub ∷ [])))
call_of_action (delete_action r ns n opts) = some (call api_delete r ns (some n) [])
call_of_action (delete_collection_action r ns opts) = some (call api_delete_collection r ns none [])
call_of_action (patch_subresource_action r ns n pt d subs) =
    some (record (call api_patch r ns (some n) subs) { api_patch = some (pt, some d) })

-- A world that is the list of the calls so far, the last one first; the answers say nothing.
abbrev pub recording_client : {S : Type 0} → RestClient (List (Option ApiCall)) S
recording_client = record {
  into_xxx = λ ss x w. ((x, none), call_of_request ss ∷ w);
  into_list = λ ss l w. ((l, none), call_of_request ss ∷ w);
  error = λ ss w. (none, call_of_request ss ∷ w);
  watch = λ ss w. ((none, none), call_of_request ss ∷ w);
}

abbrev pub recording_fake :
    {S L : Type 0}
    → (ListOptions → Option L)
    → L
    → (L → StringMap → Bool)
    → FakeLib (List (Option ApiCall)) S L
recording_fake extract everything matches = record {
  invokes = λ action o w. ((some o, none), call_of_action action ∷ w);
  invokes_watch = λ action w. ((none, none), call_of_action action ∷ w);
  extract = extract;
  everything = everything;
  matches = matches;
}

-- An operation of the interface.
pub data Operation : Type 0 where
  get_op : String → Options → Operation
  list_op watch_op : ListOptions → Operation
  create_op update_op update_status_op : Xxx → Options → Operation
  delete_op : String → Options → Operation
  delete_collection_op : Options → ListOptions → Operation
  patch_op : String → String → String → Options → List String → Operation

module _ {W S : Type 0} (i : XxxInterface W S) where
  unfoldable pub perform : Operation → W → W
  perform (get_op n opts) w = (i.get_one n opts w).1
  perform (list_op opts) w = (i.list_all opts w).1
  perform (watch_op opts) w = (i.watch_all opts w).1
  perform (create_op x opts) w = (i.create_one x opts w).1
  perform (update_op x opts) w = (i.update_one x opts w).1
  perform (update_status_op x opts) w = (i.update_status_one x opts w).1
  perform (delete_op n opts) w = (i.delete_one n opts w).1
  perform (delete_collection_op opts list_opts) w = (i.delete_all opts list_opts w).1
  perform (patch_op n pt d opts subs) w = (i.patch_one n pt d opts subs w).1

  unfoldable pub perform_all : List Operation → W → W
  perform_all [] w = w
  perform_all (o ∷ os) w = perform_all os (perform o w)
