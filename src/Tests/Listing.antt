-- ===== src/Tests/Listing.antt =====
-- Listings through the cache at concrete answers of the daemon.
use wingstation.Prelude.{some, [], ◌∷◌, Str, bytes, List, none, ◌≡◌, ◌≢◌, refl, ap, ◌∙◌, All, arith}
use wingstation.Prelude.Int.{pos, negsuc, ◌+ℤ◌}
use wingstation.Go.Map.{lookup}
use wingstation.Go.Result.{ok, err, panic}
use wingstation.Cache.{Cache, get, new, sweep}
use wingstation.Docker.Models.{Container}
use wingstation.Service.Listing.{
  Cached, containers_value, fetched, ListInput, containers_key, list_containers, visible,
}
use wingstation.Service.Listing.Visible.{IsListing, visible-IsListing}
use wingstation.Service.Listing.Typed.{IsTyped}
use wingstation.Docker.Client.{container_list}
use wingstation.Service.Asked.{listings_ask}
use wingstation.Service.Asked.Laws.{listings_ask-once}
use wingstation.Service.Listing.Reach.{
  Reachable, starts, steps, lists, sweeps, Reachable-IsTyped, list_containers-miss,
}
use wingstation.Service.Listing.Laws.{store-result}
use wingstation.Service.Host.{ApiInfo, HostInput, get_info}
use wingstation.Service.Host.Laws.{get_info-no_panic}
use wingstation.Tests.Data.{plain, answered}

visible-IsListing_example :
    (ds : List Container) × (visible plain answered ≡ ok ds) × IsListing plain answered ds
visible-IsListing_example = visible-IsListing plain answered (omega arith, (omega arith, tt))

abbrev pub first_input : ListInput
first_input = record { asked = pos 1; answer = ok answered; stored = pos 9 }

-- An answer that must not be asked for.
abbrev later_input : ListInput
later_input = record { asked = pos 50; answer = err (bytes "gone"); stored = pos 51 }

abbrev pub protocol : Str → Str
protocol port = bytes "tcp"

-- The cache after a listing, and after a sweep.
abbrev pub filled : Cache Cached
filled = (list_containers plain (new (pos 100)) first_input).1

filled-Reachable : Reachable plain protocol (sweep (pos 20) filled)
filled-Reachable =
    steps (steps (starts (pos 100)) (lists (new (pos 100)) first_input)) (sweeps filled (pos 20))

abbrev api_info : ApiInfo
api_info = record {
  name = bytes "box";
  operating_system = bytes "Alpine";
  architecture = bytes "x86_64";
  kernel_version = bytes "6.6";
  server_version = bytes "27.0";
  mem_total = pos 1024;
  ncpu = pos 4;
  containers = pos 2;
  containers_running = pos 2;
  containers_paused = pos 0;
  containers_stopped = pos 0;
  images = pos 1;
  driver = bytes "overlay2";
  docker_root_dir = bytes "/var/lib/docker";
}

-- A volume whose size is not known has size -1.
abbrev pub host_input : HostInput
host_input = record {
  asked = pos 30;
  info = ok api_info;
  ping = ok (bytes "1.47");
  usage = ok (record {
    images = some (pos 700) ∷ [];
    containers = some (pos 5) ∷ [];
    volumes = some (negsuc 0) ∷ some (pos 9) ∷ [];
    build_cache = [];
  });
  stored = pos 31;
}

get_info-no_panic_example : (get_info (sweep (pos 20) filled) host_input).0 ≢ panic
get_info-no_panic_example =
    get_info-no_panic plain protocol (sweep (pos 20) filled) host_input filled-Reachable (record {
      info_returns = λ p. cc;
      ping_returns = λ p. cc;
      usage_returns = ((λ p. cc, tt), (λ p. cc, tt), (λ p. cc, (λ p. cc, tt)), tt);
    })

Reachable-IsTyped_example : IsTyped (sweep (pos 20) filled)
Reachable-IsTyped_example = Reachable-IsTyped plain protocol filled-Reachable

abbrev shown : List Container
shown = (visible-IsListing plain answered (omega arith, (omega arith, tt))).0

nothing_held : get (new {V = Cached} (pos 100)) (pos 1) containers_key ≡ none
unfolding get new lookup
nothing_held = refl

first-shown : (list_containers plain (new (pos 100)) first_input).0 ≡ ok shown
first-shown =
    ap (λ p. p.0) (list_containers-miss plain (new (pos 100)) first_input nothing_held)
    ∙ store-result (new (pos 100)) (pos 9) containers_key containers_value
        (fetched plain first_input)
    ∙ (visible-IsListing plain answered (omega arith, (omega arith, tt))).1

-- Two listings more within the time to live.
listings_ask-once_example :
    (listings_ask plain (new (pos 100)) (first_input ∷ later_input ∷ later_input ∷ [])
      ≡ container_list ∷ [])
    × All
        (λ j. list_containers plain filled j ≡ (ok shown, filled))
        (later_input ∷ later_input ∷ [])
unfolding new ◌+ℤ◌
listings_ask-once_example =
    listings_ask-once plain (new (pos 100)) first_input (later_input ∷ later_input ∷ []) shown
      nothing_held first-shown (omega arith, (omega arith, tt))
