-- ===== src/Tests/Docker.antt =====
-- The labels, links and ports at concrete inputs.
use wingstation.Prelude.{bytes, str_eq, [], ◌∷◌, ◌≡◌, refl, map, filter, arith}
use wingstation.Go.Map.{lookup}
use wingstation.Docker.Labels.{parse_labels}
use wingstation.Docker.Labels.Laws.{labels_by_key, parse_labels-by_key}
use wingstation.Docker.Repo.{infer_repo_url, first_set}
use wingstation.Docker.Repo.Laws.{infer_repo_url-official}
use wingstation.Docker.Ports.{port_mapping, port_mappings}
use wingstation.Docker.Ports.Laws.{firsts, is_exposed, port_mappings-firsts}
use wingstation.Tests.Data.{plain, media_labels, port}

parse_labels-by_key_example : parse_labels plain media_labels ≡ labels_by_key plain media_labels
unfolding lookup str_eq
parse_labels-by_key_example = parse_labels-by_key plain media_labels (refl, (refl, (refl, tt)))

-- The part before the last colon of a registry with a port is its host.
infer_repo_url-official_example :
    infer_repo_url [] (bytes "registry:5000/team/app") ≡ bytes "https://hub.docker.com/_/registry"
unfolding first_set lookup
infer_repo_url-official_example =
    infer_repo_url-official [] refl (bytes "registry") (bytes "5000/team/app") (omega arith)
      (omega arith) (omega arith) (omega arith) (λ p. cc) (omega arith) (omega arith)

port_mappings-firsts_example :
    port_mappings [] (port 8080 ∷ port 8080 ∷ port 0 ∷ [])
    ≡ map port_mapping (firsts (filter is_exposed (port 8080 ∷ port 8080 ∷ port 0 ∷ [])))
port_mappings-firsts_example = port_mappings-firsts (port 8080 ∷ port 8080 ∷ port 0 ∷ []) (
  ((λ e. omega (arith, e)), ((λ e. omega (arith, e)), ((λ e. omega (arith, e)), tt))),
  (
    ((λ e. omega (arith, e)), ((λ e. omega (arith, e)), ((λ e. omega (arith, e)), tt))),
    (((λ e. omega (arith, e)), ((λ e. omega (arith, e)), ((λ e. omega (arith, e)), tt))), tt),
  ),
)
