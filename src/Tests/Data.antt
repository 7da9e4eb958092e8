-- ===== src/Tests/Data.antt =====
-- Containers, labels and images for the tests.
use wingstation.Prelude.{Str, bytes, str_eq, Bool, false, List, [], ◌∷◌, ℕ}
use wingstation.Prelude.Int.{ℤ, pos}
use wingstation.Go.Strings.{Unicode}
use wingstation.Docker.Labels.{WingStationLabels}
use wingstation.Docker.Models.{Container, ApiContainer}
use wingstation.Docker.Ports.{ApiPort}

-- Tables that leave text beyond ASCII as it is.
abbrev pub plain : Unicode
plain = record { lower = λ s. s; fold_eq = str_eq; trim_left = λ s. s; trim_right = λ s. s }

abbrev pub media_labels : List (Str × Str)
media_labels =
    (bytes "wingstation.group", bytes "Media")
    ∷ (bytes "wingstation.priority", bytes "10")
    ∷ (bytes "wingstation.tags", bytes "video, home")
    ∷ []

abbrev pub labels_in : Str → ℤ → Bool → WingStationLabels
labels_in group priority hide = record {
  group = group;
  name = [];
  icon = [];
  description = [];
  url = [];
  priority = priority;
  hide = hide;
  tags = bytes "Home" ∷ [];
}

abbrev pub container_of : Str → Str → ℤ → Container
container_of name group priority = record {
  id = bytes "0123456789abcdef";
  short_id = bytes "0123456789ab";
  name = name;
  image = bytes "nginx:1.27";
  state = bytes "running";
  status = bytes "Up 2 hours";
  created = pos 1700;
  uptime = pos 60;
  ports = [];
  labels = labels_in group priority false;
  all_labels = [];
}

abbrev pub web : Container
web = container_of (bytes "web") (bytes "Apps") (pos 20)

abbrev pub db : Container
db = container_of (bytes "db") (bytes "Apps") (pos 5)

abbrev pub tv : Container
tv = container_of (bytes "tv") (bytes "Media") (pos 10)

abbrev pub listed : List Container
listed = web ∷ tv ∷ db ∷ []

abbrev pub port : ℕ → ApiPort
port public_port = record {
  ip = bytes "0.0.0.0";
  private_port = 80;
  public_port = public_port;
  protocol = bytes "tcp";
}

-- A running container, and one that its label hides.
abbrev pub api_container : Str → List (Str × Str) → ApiContainer
api_container name labels = record {
  id = bytes "0123456789abcdef";
  names = name ∷ [];
  image = bytes "nginx";
  state = bytes "running";
  status = bytes "Up";
  created = pos 1700;
  ports = port 8080 ∷ port 8080 ∷ port 0 ∷ [];
  labels = labels;
}

abbrev pub answered : List (ℤ × ApiContainer)
answered =
    (pos 5, api_container (bytes "/web") media_labels)
    ∷ (pos 6, api_container (bytes "/proxy") ((bytes "wingstation.hide", bytes "true") ∷ []))
    ∷ []
