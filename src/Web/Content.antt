-- ===== src/Web/Content.antt =====
-- `getContentType` of PA2/server.c.
use network_systems.Prelude.{Option, none, some, if◌then◌else◌, ◌||◌}
use network_systems.CString.{Bytes, codes, streq}

-- What it copies to contentType; `none` leaves the array as it is.
unfoldable pub content_type : Bytes → Option Bytes
content_type extension =
    if streq extension (codes ".html") || streq extension (codes ".htm")
    then some (codes "text/html")
    else if streq extension (codes ".txt")
    then some (codes "text/plain")
    else if streq extension (codes ".png")
    then some (codes "img/png")
    else if streq extension (codes ".gif")
    then some (codes "image/gif")
    else if streq extension (codes ".jpg")
    then some (codes "image/jpg")
    else if streq extension (codes ".css")
    then some (codes "text/css")
    else if streq extension (codes ".js")
    then some (codes "application/javascript")
    else if streq extension (codes ".ico")
    then some (codes "image/x-icon")
    else none
