-- ===== src/Proxy/Content.antt =====
-- `get_filename_ext` and `getContentType` of PA3/proxy.c.
use network_systems.Prelude.{if◌then◌else◌, ◌||◌, ◌==◌, none, some, [], length, drop}
use network_systems.CString.{Bytes, codes, streq, strrchr}

-- Behind the last dot, unless the name begins with it or has none.
unfoldable pub filename_ext : Bytes → Bytes
filename_ext filename = elim (strrchr filename b'.') [
  | none ↦ []
  | some dot ↦ if length dot == length filename then [] else drop 1 dot
]

unfoldable pub content_type : Bytes → Bytes
content_type extension =
    if streq extension (codes "html") || streq extension (codes ".htm")
    then codes "text/html"
    else if streq extension (codes "txt")
    then codes "text/plain"
    else if streq extension (codes "png")
    then codes "img/png"
    else if streq extension (codes "gif")
    then codes "image/gif"
    else if streq extension (codes "jpg")
    then codes "image/jpg"
    else if streq extension (codes "css")
    then codes "text/css"
    else if streq extension (codes "js")
    then codes "application/javascript"
    else if streq extension (codes "ico")
    then codes "image/x-icon"
    else codes "text/html"
