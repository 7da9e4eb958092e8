-- ===== src/Server/Setup/Pages.antt =====
-- The pages that a server made by `New` (internal/server/server.go) shows.
use wingstation.Config.{Config}
use wingstation.Server.Site.{Site}
use wingstation.Server.Setup.{Server}
