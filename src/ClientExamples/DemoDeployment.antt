-- ===== src/ClientExamples/DemoDeployment.antt =====
-- client-go/examples-from-other-repo/client-go-official-examples/create-update-delete-deployment/main.go, from the
-- client on: a Deployment is created, updated, listed and deleted. What the program prints is left out.
use kubernetes_examples.Prelude.{String, List, [], ◌∷◌, Option, none, some}
use kubernetes_examples.Prelude.Int.{pos}
use kubernetes_examples.Prelude.Results.{returned, panicked}
use kubernetes_examples.ClientExamples.ConfigMaps.{Script, panic, return, ◌>>◌}
use kubernetes_examples.ClientExamples.Retrying.{error_of, expect_none, retry_edit}
use kubernetes_examples.ClientExamples.Deployments.{
  Deployment, ok, err, foreground, DeploymentClient, Retry,
}

unfoldable pub demo_deployment : Deployment
demo_deployment = record {
  name = "demo-deployment";
  resource_version = "";
  replicas = some (pos 2);
  match_labels = ("app", "demo") ∷ [];
  template_labels = ("app", "demo") ∷ [];
  containers =
      record {
        name = "web";
        image = "nginx:1.12";
        ports = record { port_name = "http"; protocol = "TCP"; container_port = pos 80 } ∷ [];
      }
      ∷ [];
  other = [];
}

-- One replica and a new image; `Containers[0]` panics where there is no container.
unfoldable pub edited : Deployment → Option Deployment
edited d = elim d.containers [
  | [] ↦ none
  | c ∷ cs ↦
      some
        (record d { replicas = some (pos 1); containers = record c { image = "nginx:1.13" } ∷ cs })
]

-- `for _, d := range list.Items`: printing `*d.Spec.Replicas` panics on nil.
unfoldable pub print_items : {W : Type 0} → List Deployment → Script W (Unit {0})
print_items [] = return tt
print_items (d ∷ ds) = elim d.replicas [ none ↦ panic | some _ ↦ print_items ds ]

-- `prompt` waits for a line; the scanner's error, if it has one, is a panic.
unfoldable pub prompt : {W : Type 0} → (W → Option String × W) → Script W (Unit {0})
prompt read_line w =
    let (answer, w') = read_line w in
    elim answer [ none ↦ (returned tt, w') | some _ ↦ (panicked, w') ]

module _ {W : Type 0} (client : DeploymentClient W) where
  unfoldable pub create_demo : Script W (Unit {0})
  create_demo w =
      let (answer, w') = client.create demo_deployment w in expect_none (error_of answer) w'

  unfoldable pub list_demo : Script W (Unit {0})
  list_demo w =
      let (answer, w') = client.list w in
      elim answer [ err _ ↦ (panicked, w') | ok items ↦ print_items items w' ]

  unfoldable pub delete_demo : Script W (Unit {0})
  delete_demo w =
      let (answer, w') = client.delete "demo-deployment" foreground w in expect_none answer w'

  unfoldable pub update_demo : Retry W → Script W (Unit {0})
  update_demo retry = retry_edit (client.get "demo-deployment") client.update edited retry

  unfoldable pub manage_demo : Retry W → (W → Option String × W) → Script W (Unit {0})
  manage_demo retry read_line = do
    create_demo
    prompt read_line
    update_demo retry
    prompt read_line
    list_demo
    prompt read_line
    delete_demo
