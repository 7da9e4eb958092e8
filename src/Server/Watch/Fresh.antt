-- ===== src/Server/Watch/Fresh.antt =====
-- What a Docker event sends to the browsers.
use wingstation.Prelude.{Str, bytes, true, List, some, ◌≡◌, refl, ◌∙◌}
use wingstation.Go.Result.{Result, ok, err, and_then}
use wingstation.Go.Map.{lookup}
use wingstation.Cache.{get, set, invalidate_all}
use wingstation.Docker.Models.{Container}
use wingstation.Service.Groups.{group_containers}
use wingstation.Service.Listing.{
  ListInput, containers_key, containers_value, fetched, list_containers, list_grouped,
  invalidate_cache,
}
use wingstation.Service.Listing.Reach.{list_containers-miss}
use wingstation.Service.Listing.Laws.{store-ok}
use wingstation.Server.Events.{concat}
use wingstation.Server.Site.{no_data, page_data, Site}
use wingstation.Server.Watch.{
  Hub, DockerMessage, hub_broadcast, broadcast_groups, broadcast_container_list, targeted_update,
  handle_docker_event,
}

module _ (s : Site) (h : Hub) (i : ListInput) (cs : List Container)
    (listed : fetched s.unicode i ≡ ok cs) where
  -- The hub with the new listing in the cache, and nothing else.
  abbrev pub refreshed : Hub
  refreshed = record h {
    cache = set (invalidate_cache h.cache) i.stored containers_key (containers_value cs);
  }

  lists_anew : list_containers s.unicode (invalidate_cache h.cache) i ≡ (ok cs, refreshed.cache)
  unfolding get lookup invalidate_cache invalidate_all
  lists_anew =
      list_containers-miss s.unicode (invalidate_cache h.cache) i refl
      ∙ store-ok (invalidate_cache h.cache) i.stored containers_key containers_value
          (fetched s.unicode i) cs listed

  -- What is refreshed is what is broadcast.
  pub handles :
      (m : DockerMessage) (chunks : List Str)
      → s.partials
          (bytes "container_list")
          (page_data (record no_data { groups = some (group_containers s.runtime cs) }))
        ≡ (chunks, true)
      → handle_docker_event s m h i
        ≡ and_then
            (hub_broadcast (bytes "containers") (concat chunks) refreshed)
            (targeted_update s m)
            err
  unfolding handle_docker_event broadcast_container_list list_grouped broadcast_groups
  handles m chunks renders = rw (lists_anew, renders) refl
