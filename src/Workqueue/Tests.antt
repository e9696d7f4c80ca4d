-- ===== src/Workqueue/Tests.antt =====
-- The theorems about the workers at a queue that counts the retries of one key.
use kubernetes_examples.Prelude.{
  Mem, inl, inr, ◌*◌, length, true, none, Bool, Option, List, [], ◌∷◌, ◌++◌, false, ℕ, suc, ◌≤◌,
  String, false, ◌≡◌, ◌≢◌, refl, some, arith, if◌then◌else◌, str_eq, str_eq_refl, str_eq_of_ne,
}
use kubernetes_examples.Kube.Effect.{err, failure, ok}
use kubernetes_examples.Workqueue.Queue.{
  RateLimitingQueue, QueueLaws, OrderLaws, Cache, IsAbsent, IsDistinct,
}
use kubernetes_examples.Workqueue.Controller.{process_next_item, run_worker, worker_round}
use kubernetes_examples.Workqueue.Queue.{KeyFuncs}
use kubernetes_examples.Workqueue.Handlers.{updated, enqueue, on_update, handle_event}
use kubernetes_examples.Workqueue.Events.{Steps, start, next, event, item, events_settle}
use kubernetes_examples.Workqueue.Laws.{retries-bound}

abbrev set_count : String → ℕ → (String → ℕ) → String → ℕ
set_count k n w = λ j. if str_eq k j then n else w j

abbrev counting : RateLimitingQueue (String → ℕ)
counting = record {
  get = λ w. (some "default/pod", w);
  add = λ k w. w;
  done = λ k w. w;
  forget = λ k w. set_count k 0 w;
  add_rate_limited = λ k w. set_count k (suc (w k)) w;
  num_requeues = λ k w. w k;
}

counting_laws : QueueLaws counting
counting_laws = record {
  forget-same = λ k w. rw (str_eq_refl k) refl;
  add-same = λ k w. rw (str_eq_refl k) refl;
  forget-other = λ j k w e. rw (str_eq_of_ne j k e) refl;
  add-other = λ j k w e. rw (str_eq_of_ne j k e) refl;
  add-any = λ j k w. refl;
  done-any = λ j k w. refl;
  get-any = λ k w. refl;
}

abbrev one_object : Cache (String → ℕ) ℕ
one_object = record { get_by_key = λ k w. ok (some 3); lister_get = λ k w. ok 3 }

abbrev fresh : String → ℕ
fresh k = 0

retries-bound_example :
    ((process_next_item counting one_object fresh).1 "default/pod" ≤ 5)
    × ((worker_round counting one_object 1 false fresh).1 "default/pod" ≤ 5)
retries-bound_example =
    retries-bound counting counting_laws one_object "default/pod" 1 false fresh (omega arith)

two_ne_one : ◌≢◌ {A = ℕ} 2 1
two_ne_one = omega arith

-- A queue of the keys in their order, which counts the retries of every key and adds none twice.
record Line : Type 0 where
  waiting : List String
  counts : String → ℕ

is_waiting : String → List String → Bool
is_waiting k [] = false
is_waiting k (j ∷ js) = let rest = is_waiting k js in if str_eq k j then true else rest

first : List String → Option String
first [] = none
first (k ∷ ks) = some k

rest_of : List String → List String
rest_of [] = []
rest_of (k ∷ ks) = ks

abbrev line : RateLimitingQueue Line
line = record {
  get = λ w. (first w.waiting, record w { waiting = rest_of w.waiting });
  add = λ k w. record w {
    waiting = if is_waiting k w.waiting then w.waiting else w.waiting ++ k ∷ [];
  };
  done = λ k w. w;
  forget = λ k w. record w { counts = set_count k 0 w.counts };
  add_rate_limited = λ k w. record {
    waiting = if is_waiting k w.waiting then w.waiting else w.waiting ++ k ∷ [];
    counts = set_count k (suc (w.counts k)) w.counts;
  };
  num_requeues = λ k w. w.counts k;
}

line_laws : QueueLaws line
line_laws = record {
  forget-same = λ k w. rw (str_eq_refl k) refl;
  add-same = λ k w. rw (str_eq_refl k) refl;
  forget-other = λ j k w e. rw (str_eq_of_ne j k e) refl;
  add-other = λ j k w e. rw (str_eq_of_ne j k e) refl;
  add-any = λ j k w. refl;
  done-any = λ j k w. refl;
  get-any = λ k w. refl;
}

absent-not_waiting : (k : String) (ks : List String) → IsAbsent k ks → is_waiting k ks ≡ false
unfolding IsAbsent is_waiting
absent-not_waiting k [] h = refl
absent-not_waiting k (j ∷ js) (h, hs) = rw (str_eq_of_ne k j h) (absent-not_waiting k js hs)

known-is_waiting : (k : String) (ks : List String) → Mem k ks → is_waiting k ks ≡ true
unfolding Mem is_waiting
known-is_waiting k [] h = absurd h
known-is_waiting k (j ∷ js) (inl e) = rw (e, str_eq_refl j) refl
known-is_waiting k (j ∷ js) (inr h) = ground (arith, known-is_waiting k js h)

line_order : OrderLaws line
unfolding first rest_of
line_order = record {
  pending = λ w. w.waiting;
  get-first = λ k ks w e. rw e (refl, refl);
  add-new = λ k w h. rw (absent-not_waiting k w.waiting h) refl;
  add-known = λ k w h. rw (known-is_waiting k w.waiting h) refl;
  done-pending = λ k w. refl;
  forget-pending = λ k w. refl;
  add-pending = λ k w h. rw (absent-not_waiting k w.waiting h) refl;
}

abbrev failing_cache : Cache Line ℕ
failing_cache = record {
  get_by_key = λ k w. err (failure "no");
  lister_get = λ k w. err (failure "no");
}

-- Objects that are their keys.
abbrev names : KeyFuncs String
names = record { meta_key = λ o. ok o; deletion_key = λ o. ok o }

abbrev idle : Line
idle = record { waiting = []; counts = fresh }

abbrev told : Line
told = handle_event line names (updated "old" "a") idle

abbrev tried : Line
tried = (process_next_item line failing_cache told).1

tried-Steps : Steps line names failing_cache line_order idle tried
unfolding handle_event on_update enqueue line_order is_waiting
tried-Steps = next (next start (event (updated "old" "a") idle)) (item "a" [] told refl)

events_settle_example :
    IsDistinct tried.waiting
    × ((n : ℕ) × (n ≤ 6 * length tried.waiting)
        × ((run_worker line failing_cache n tried).waiting ≡ []))
unfolding line_order
events_settle_example =
    events_settle line names failing_cache line_order line_laws idle tried refl (λ k. omega arith)
      tried-Steps
