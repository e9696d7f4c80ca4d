-- ===== src/Lib.antt =====
-- Models of the programs in this repository that hold logic of their own, and theorems about them.
-- Each program stands alone; they meet in the Kubernetes API server, which is a parameter of the
-- models.
--
-- PodOperator: the PodManager operator (pod-operator/). Types and Conditions model the resource and
-- its condition helpers (api/v1/podmanager_types.go); Controller models Reconcile and
-- handleFinalizer (controllers/podmanager_controller.go), step by step with every client call,
-- event, error and panic. Scaling, Names and Convergence are about step 5, Deletion about the
-- finalizer, Status and Readiness about step 6, and Reconciled about a whole reconciliation. Lifecycle says what
-- may happen to a PodManager and its Pods beside a controller whose reads are up to date, and
-- PodsGone, FinalizerKept and Orphans are about reconciliations among such changes; Release is
-- about the last one. DeepCopy models the generated copies (api/v1/zz_generated.deepcopy.go).
--
-- FinalizerExample: the controller of a SimpleApp that is kept until its Pods are gone
-- (finalizer-example/finalizer.go). Laws is about single reconciliations, Liveness about one after
-- another.
--
-- Webhook: ByService models the admission webhook that is written by hand
-- (webhook/using-byhand/by-service/webhook.go): Review has the review types, Policy the functions
-- that decide whether an object is looked at (admissionRequired and its two callers), Patch the
-- functions that build the JSON patch, Handlers validate and mutate, Server the HTTP handler serve.
-- ByBaremetal models the webhook for Pods (webhook/using-byhand/by-baremetal/main.go). Calculate
-- models the webhook and the controller that are built with kubebuilder
-- (webhook/using-kubebuilder/): Types (api/v1/calculate_types.go), Admission
-- (api/v1/calculate_webhook.go), Controller (internal/controller/calculate_controller.go) and
-- DeepCopy (api/v1/zz_generated.deepcopy.go).
--
-- LeaderElection: the lock on a Redis key (leader-election/redislock/redislock.go) in RedisLock,
-- with its Lua script, and the options of the Redis client (leader-election/redislock.go) in
-- Options. LockLaws is about single operations, Exclusion about those of other candidates while the
-- key is held, and Refinement sets the lock against an abstract lease.
--
-- Workqueue: the controller on a rate-limited queue
-- (client-go/examples-from-other-repo/client-go-official-examples/workqueue/main.go) and the
-- worker's loop of client-go/workqueue/main.go, both with their event handlers (Handlers). Laws is
-- about retries, Termination about a worker that comes to the end of its queue, for which Queue
-- says in which order a queue hands out its keys (OrderLaws), and Events about events and a worker
-- in any order.
--
-- ClientExamples: what programs create and delete by the clients of client-go. Scripts models the
-- objects of client-go/workqueue/main.go and the two programs with an informer
-- (client-go/using-informers/, informer-dynamic-simple and informer-typed-simple), Dynamic the one
-- with the dynamic client (client-go/using-dynamic-interface/advanced_example.go), Reflector the
-- statistics on what a reflector sees (client-go/using-reflector/examples/advanced_example.go), and
-- DemoDeployment and DynamicDemo the two Deployment examples of client-go
-- (client-go/examples-from-other-repo/client-go-official-examples/), whose retries are in Retrying.
--
-- SchedulerExtender: the handlers and the routes of the scheduler extender, and the routes that
-- main adds (k8s-scheduler-extender-example/).
--
-- DefaultValidation: the handler that fills in the defaults of a query (setdefault/main.go).
--
-- ResourceDefinition: the types, defaults, conversions and copies of the resource --
-- SchedulerExtender: the handlers and the routes of the scheduler extender, and the routes that
-- main adds (k8s-scheduler-extender-example/).
--
-- DefaultValidation: the handler that fills in the defaults of a query (setdefault/main.go).X
-- (resourcedefinition/apps/), and in
-- Clientset the generated client, the client for tests and their construction
-- (resourcedefinition/generated/clientset/versioned/).
--
-- StartUp: the main functions from the parsed flags to the call that keeps the program running, as
-- calls of other packages and the ways in which a failure ends the process (Process).
-- CalculateManager models webhook/using-kubebuilder/cmd/main.go, OperatorManager
-- pod-operator/main.go, Election leader-election/main.go, RedisElection
-- leader-election/redislock.go, and Servers webhook/using-byhand/by-service/main.go.
--
-- Kube holds what the controllers share: the fields of Kubernetes objects that they touch
-- (Objects); computations that take the world to an outcome, the calls that they made and the next
-- world, where the outcome is a value, an error or a panic (Effect); the client and controllerutil
-- as records that the models take (Client); a small cluster for concrete runs (Store); the calls of
-- one kind in a run (Trace); rules for what a run does to the world (Along); slices that objects
-- may share (Memory), and the copies that deepcopy-gen writes for a resource with conditions and
-- for its lists (DeepCopy, with DeepCopyLaws and DeepCopyLists on what the copies show). Prelude
-- holds Boolean tests, lists, maps with texts as keys, results, signed integers with Go's
-- wrap-around, and decimal texts.
--
-- What belongs to other packages is a parameter: the API server and controllerutil, the JSON
-- codecs, Redis with the network, redis.ParseURL, the work queue and the caches, the router,
-- strings.ToUpper, the REST client and the other clients of client-go, the tracker of the client
-- for tests, the constructors of client-go, the managers and elections that the main functions
-- start, the functions of unstructured, gin's binding of queries, and the copying of metadata.
-- Where a theorem relies on such a part, it names the documented behaviour as a hypothesis
-- (RedisLaws, JsonLaws, QueueLaws, OrderLaws, PatientServer, VersionedServer, Retry, PodServer,
-- OwnServer, Answers, RouterLaw, HealthyServer, the semantics of JSON patches), and the Tests
-- modules give an instance of it.
--
-- Bounds. int32 and int keep their wrap-around (to_int32, to_int64); the theorems about the number
-- of Pods take a list that fits an int32. The theorems about leases take one between a second and
-- max_lease, the longest whose nanoseconds fit an int64; LeaseDurationSeconds and the index of a
-- Redis database are taken as not negative. Loops are recursion on the list, or on the number of
-- rounds, which is known before the first. The decimal digits of a number are computed on fuel:
-- `suc n` rounds are enough for the number n, which has fewer digits than that. A worker runs on
-- fuel, the number of items; Termination counts the attempts that are left, six for each waiting
-- key at most, and shows that as much fuel is enough.
--
-- Not modelled: log entries and what the programs print; the parsing of flags, signals, TLS files
-- and the HTTP servers themselves; informers and the goroutines that run workers; the registration
-- of types with schemes; the other client-go examples, which only send requests and print the
-- answers; manifests.
mod Prelude
pub mod Kube
pub mod PodOperator
pub mod FinalizerExample
pub mod Webhook
pub mod LeaderElection
pub mod Workqueue
pub mod SchedulerExtender
pub mod ResourceDefinition
pub mod ClientExamples
pub mod StartUp
pub mod DefaultValidation
