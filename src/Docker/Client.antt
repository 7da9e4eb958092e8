-- ===== src/Docker/Client.antt =====
-- internal/docker/client.go and internal/docker/exec.go: the clients of the Docker daemon that the
-- program makes. The SDK is a parameter; the interfaces of the two clients are the kinds of calls
-- that go through them.
use wingstation.Prelude.{Str, bytes, List, [], ◌∷◌, ◌++◌, Option, none, some}
use wingstation.Go.Result.{Result, ok, err, and_then}

-- The methods of `ReadOnlyClient`, by what is asked.
pub data ReadOnlyCall : Type 0 where
  container_list : ReadOnlyCall
  container_inspect : Str → ReadOnlyCall
  container_stats : Str → ReadOnlyCall
  info : ReadOnlyCall
  disk_usage : ReadOnlyCall
  events : ReadOnlyCall
  ping : ReadOnlyCall
  close : ReadOnlyCall

-- The options of the SDK that the program uses.
pub data ClientOption : Type 0 where
  with_host : Str → ClientOption
  with_api_version_negotiation : ClientOption

-- `client.NewClientWithOpts` of the SDK, `Ping` within its five seconds, and `Close`, by its error.
pub record Sdk (C : Type 0) : Type 0 where
  pub new_client_with_opts : List ClientOption → Result C
  pub ping : C → Result Str

module _ {C : Type 0} (sdk : Sdk C) where
  -- `NewReadOnlyClient`
  unfoldable pub new_read_only_client : Str → Result C
  new_read_only_client socket_path =
      and_then
        (sdk.new_client_with_opts
          (with_host (bytes "unix://" ++ socket_path) ∷ with_api_version_negotiation ∷ []))
        ok err

  -- `NewExecClient`
  unfoldable pub new_exec_client : Str → Result C
  new_exec_client socket_path =
      and_then
        (sdk.new_client_with_opts
          (with_host (bytes "unix://" ++ socket_path) ∷ with_api_version_negotiation ∷ []))
        ok err

-- What `DrainBody` asks of a body.
pub data BodyCall : Type 0 where
  copy_to_discard : BodyCall
  close_body : BodyCall

-- `DrainBody`: a nil body is left alone, and the errors of the two calls are ignored.
unfoldable pub drain_body : {B : Type 0} → Option B → List BodyCall
drain_body none = []
drain_body (some rc) = copy_to_discard ∷ close_body ∷ []
