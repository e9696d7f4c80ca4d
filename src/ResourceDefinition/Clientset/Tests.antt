-- ===== src/ResourceDefinition/Clientset/Tests.antt =====
-- The theorems about the clientset at concrete clients.
use kubernetes_examples.Prelude.{
  ℕ, String, true, false, ◌≡◌, refl, List, [], ◌∷◌, Option, none, some, has_key, str_eq,
}
use kubernetes_examples.Prelude.Int.{pos}
use kubernetes_examples.Prelude.Results.{ok}
use kubernetes_examples.ResourceDefinition.Types.{Xxx, XxxList}
use kubernetes_examples.ResourceDefinition.Clientset.Rest.{ListOptions, Options}
use kubernetes_examples.ResourceDefinition.Clientset.Typed.{zero_xxx, zero_list}
use kubernetes_examples.ResourceDefinition.Clientset.Fake.{FakeLib, xxx_list}
use kubernetes_examples.ResourceDefinition.Clientset.Calls.{
  Operation, get_op, list_op, watch_op, create_op, update_status_op, delete_op,
  delete_collection_op, patch_op,
}
use kubernetes_examples.ResourceDefinition.Clientset.Config.{
  both, clients_for, Config, ConfigLib, set_config_defaults, with_agent, apps_for_config_and_client,
  new_for_config_and_client,
}

abbrev plain_list : ListOptions
plain_list = record {
  label_selector = "app";
  field_selector = "";
  resource_version = "";
  watch = false;
  timeout_seconds = some (pos 30);
}

abbrev no_options : Options
no_options = record { fields = [] }

abbrev labelled : Xxx
labelled = record zero_xxx {
  meta = record { name = "one"; generate_name = ""; labels = ("app", "web") ∷ []; other = [] };
}

abbrev script : List Operation
script =
    get_op "one" no_options
    ∷ list_op plain_list
    ∷ watch_op plain_list
    ∷ create_op labelled no_options
    ∷ update_status_op labelled no_options
    ∷ delete_op "one" no_options
    ∷ delete_collection_op no_options plain_list
    ∷ patch_op "one" "merge" "x" no_options ("scale" ∷ [])
    ∷ []

-- A selector is the key of a label.
abbrev selected : ListOptions → Option String
selected o = some o.label_selector

abbrev stored : XxxList
stored = record zero_list { items = labelled ∷ zero_xxx ∷ [] }

abbrev holds_two : FakeLib ℕ ℕ String
holds_two = record {
  invokes = λ action o w. ((some (xxx_list stored), none), 1);
  invokes_watch = λ action w. ((none, none), w);
  extract = selected;
  everything = "";
  matches = has_key;
}

-- Rates and limiters are numbers; every client is made but a discovery client without an agent.
abbrev config : Config ℕ ℕ
config = record {
  group_version = none;
  api_path = "";
  serializer = "";
  user_agent = "";
  rate_limiter = none;
  qps = 5;
  burst = pos 10;
  rest = "https://localhost";
}

abbrev makes : ConfigLib ℕ ℕ String String String
makes = record {
  http_client_for = λ c. ok c.user_agent;
  rest_client_for = λ c h. ok c.api_path;
  discovery_for = λ c h. ok c.user_agent;
  token_bucket = λ q b. q;
  is_positive = λ q. true;
  default_agent = "agent";
}

made : new_for_config_and_client makes config "http" ≡ ok ("/apis", "")
unfolding new_for_config_and_client clients_for both apps_for_config_and_client set_config_defaults
    with_agent str_eq
made = refl
