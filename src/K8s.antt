-- ===== src/K8s.antt =====
-- services/control-plane/internal/k8s/client.go: which configuration the process reaches its cluster
-- with, and the clients made of it. The Kubernetes library is a parameter: rest.InClusterConfig, the
-- loading of kubeconfig files by the path given and the context wanted, and the two constructors.
use spinup.Prelude.{
  ◌≡◌, refl, String, Option, none, some, Result, ok, err, ◌>>=◌, if◌then◌else◌, ◌==◌,
}

-- What clientcmd is told: ExplicitPath and CurrentContext, where they are set.
pub record Loading : Type 0 where
  pub explicit_path : Option String
  pub current_context : Option String

-- The errors with their causes; the value of KUBECONFIG, which the first one also shows, is left out.
pub data ClientError (E : Type 0) : Type 0 where
  load_kubeconfig : (cause : E) → (kubeconfig kubecontext : String) → ClientError E
  dynamic_client : (cause : E) → ClientError E
  typed_client : (cause : E) → ClientError E

pub record ClientGo (E C D T : Type 0) : Type 0 where
  pub in_cluster : Result E C
  pub client_config : Loading → Result E C
  pub new_dynamic : C → Result E D
  pub new_typed : C → Result E T

pub record Clients (C D T : Type 0) : Type 0 where
  pub config : C
  pub dynamic : D
  pub typed : T

abbrev if_set : String → Option String
if_set s = if s == "" then none else some s

abbrev pub loading : String → String → Loading
loading kubeconfig kubecontext = record {
  explicit_path = if_set kubeconfig;
  current_context = if_set kubecontext;
}

abbrev caused : {E A : Type 0} → (E → ClientError E) → Result E A → Result (ClientError E) A
caused wrap (ok x) = ok x
caused wrap (err e) = err (wrap e)

module _ {E C D T : Type 0} (go : ClientGo E C D T) where
  abbrev or_kubeconfig : String → String → Result E C → Result (ClientError E) C
  or_kubeconfig kubeconfig kubecontext (ok c) = ok c
  or_kubeconfig kubeconfig kubecontext (err e) =
      caused (λ x. load_kubeconfig x kubeconfig kubecontext)
        (go.client_config (loading kubeconfig kubecontext))

  unfoldable rest_config : String → String → Result (ClientError E) C
  rest_config kubeconfig kubecontext = or_kubeconfig kubeconfig kubecontext go.in_cluster

  unfoldable new : String → String → Result (ClientError E) (Clients C D T)
  unfolding rest_config
  new kubeconfig kubecontext = do
    cfg ← rest_config kubeconfig kubecontext
    dyn ← caused dynamic_client (go.new_dynamic cfg)
    typed ← caused typed_client (go.new_typed cfg)
    ok (record { config = cfg; dynamic = dyn; typed = typed })

  -- Inside a cluster neither the path nor the context has a say.
  new-in_cluster :
      (c : C) (path context path' context' : String)
      → go.in_cluster ≡ ok c
      → new path context ≡ new path' context'
  unfolding new
  new-in_cluster c path context path' context' h = rw h refl
