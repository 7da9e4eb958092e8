-- ===== src/Tests/Requests.antt =====
-- The server at concrete requests.
use mathlib.Core.List.{Perm}
use mathlib.Core.Option.{none-ne-some}
use wingstation.Prelude.{
  bytes, str_eq, str_eq_iff, not_both, true, false, [], ◌∷◌, none, some, ◌≡◌, refl, inl, inr,
  filter,
}
use wingstation.Go.Runtime.Insertion.{forward}
use wingstation.Docker.Labels.{group_name}
use wingstation.Service.Groups.{group_containers}
use wingstation.Service.Groups.Collect.{members}
use wingstation.Server.Http.{Request, replied, sent_status}
use wingstation.Server.Site.{page_data, no_data, Site}
use wingstation.Server.Handlers.{groups_named, render_partial}
use wingstation.Server.Handlers.Grouped.{groups_named-members}
use wingstation.Server.Handlers.Shown.{render_partial-recorded_status}
use wingstation.Server.Middleware.{unauthorized, recorded_status}
use wingstation.Server.Routes.{serve}
use wingstation.Server.Routes.Auth.{IsAuthorized, serve-unauthorized}
use wingstation.Tests.Data.{listed}
use wingstation.Tests.Web.{site, exact_mux, configured, answers, get_request, fresh_world}

abbrev api_request : Request
api_request = get_request (bytes "/api/containers") [] none

stranger : ¬ IsAuthorized (configured true false) api_request
unfolding str_eq
stranger (inl e) = not_both (str_eq api_request.path (bytes "/healthz")) ((str_eq_iff _ _).1 e) refl
stranger (inr e) = none-ne-some (bytes "admin", bytes "pw") e

serve-unauthorized_example :
    serve site (configured true false) answers exact_mux false api_request fresh_world
    ≡ (replied unauthorized, fresh_world)
serve-unauthorized_example =
    serve-unauthorized site (configured true false) answers exact_mux false api_request fresh_world
      refl stranger

-- The administrator asks for the dashboard.
abbrev admin_request : Request
admin_request = get_request (bytes "/") [] (some (bytes "admin", bytes "pw"))

groups_named-members_example :
    Perm
      (members (groups_named (bytes "Apps") (group_containers forward listed)))
      (filter (λ c. str_eq (group_name c.labels) (bytes "Apps")) listed)
groups_named-members_example = groups_named-members (bytes "Apps") forward listed

-- A site whose partials fail after their first chunk.
abbrev broken_site : Site
broken_site = record site { partials = λ name d. (name ∷ [], false) }

render_partial-recorded_status_example :
    (sent_status (render_partial broken_site (bytes "container_list") (page_data no_data)) ≡ 200)
    × (recorded_status (render_partial broken_site (bytes "container_list") (page_data no_data))
        ≡ 500)
render_partial-recorded_status_example =
    render_partial-recorded_status broken_site (bytes "container_list") (page_data no_data)
      (bytes "container_list") [] refl
