-- ===== src/Docker/Ports.antt =====
-- internal/docker/models.go: the port mappings of a container.
pub mod Key
pub mod Laws
use Prim.Native.Nat.{ℕ}
use wingstation.Prelude.{
  Str, bytes, str_eq, Bool, not, List, [], ◌∷◌, ◌++◌, if◌then◌else◌, ◌==◌, any,
}
use wingstation.Go.Strconv.{itoa}

pub record PortMapping : Type 0 where
  pub container_port : Str
  pub host_port : Str
  pub protocol : Str
  pub host_ip : Str

-- `types.Port`
pub record ApiPort : Type 0 where
  pub ip : Str
  pub private_port : ℕ
  pub public_port : ℕ
  pub protocol : Str

unfoldable pub port_str : ℕ → Str → Str
port_str port proto =
    if port == 0
    then []
    else if not (str_eq proto [])
    then itoa port ++ (b'/' ∷ proto)
    else itoa port

-- `fmt.Sprintf("%s:%d->%d/%s", …)`
unfoldable pub port_key : ApiPort → Str
port_key p =
    p.ip
    ++ (b':' ∷ (itoa p.public_port ++ (bytes "->" ++ (itoa p.private_port ++ (b'/' ∷ p.protocol)))))

unfoldable pub port_mapping : ApiPort → PortMapping
port_mapping p = record {
  container_port = port_str p.private_port p.protocol;
  host_port = port_str p.public_port [];
  protocol = p.protocol;
  host_ip = p.ip;
}

-- The loop over the ports; `seen` holds the keys met so far.
unfoldable pub port_mappings : List Str → List ApiPort → List PortMapping
port_mappings seen [] = []
port_mappings seen (p ∷ ps) =
    let skipped = port_mappings seen ps in
    let kept = port_mapping p ∷ port_mappings (port_key p ∷ seen) ps in
    if p.public_port == 0 then skipped else if any (str_eq (port_key p)) seen then skipped else kept
