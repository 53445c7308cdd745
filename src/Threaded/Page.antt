-- ===== src/Threaded/Page.antt =====
-- Pages of the web server with threads, and the page that it does not have.
use network_systems.Prelude.{
  take_but_last, ◌<◌, ◌≡◌, ◌≢◌, refl, ap, true, false, [], ◌∷◌, ◌++◌, some, none, arith, length,
  append_assoc, lt→ltb, length-append, ◌==◌,
}
use network_systems.CString.{
  decimal, Bytes, codes, cstr_self, contains, strchr, strtok_token, avoids, elem, elem-append,
  streq,
}
use network_systems.Machine.{ok}
use network_systems.Stream.{bufsize}
use network_systems.Web.Request.{Garbage, HttpRequest}
use network_systems.Web.Reply.{Connection, send, close}
use network_systems.Web.Service.{Disk, temp_size, received_text}
use network_systems.Threaded.Content.{content_type}
use network_systems.Threaded.Request.{read_request, scan_request}
use network_systems.Threaded.Service.{
  served, exited, parse_request, dispatch, service_request, respond, relative_path, response_header,
  fresh,
}

-- A request for a page, up to its last byte, which `parse_request` overwrites.
abbrev pub page_line : Bytes → Bytes
page_line uri =
    codes "GET " ++ (uri ++ codes " HTTP/1.1\r\nHost: localhost\r\nConnection: close\r\n\r")

abbrev pub page_request : Bytes → Bytes
page_request uri = page_line uri ++ codes "\n"

-- A URI that the request line can carry, and that stays below www.
pub record IsPlainUri (disk : Disk) (uri : Bytes) : Type 0 where
  pub ne_nil : uri ≢ []
  pub no_blank : avoids (codes " ") uri ≡ true
  pub no_nul : elem 0 uri ≡ false
  pub below : contains uri (codes "..") ≡ false
  pub not_root : streq uri (codes "/") ≡ false
  pub no_directory : disk.is_directory (codes "www" ++ uri) ≡ false
  pub fits_path : length (codes "www" ++ uri) < temp_size
  pub short : length (page_request uri) < bufsize

pub record Page : Type 0 where
  pub uri : Bytes
  pub extension : Bytes
  pub type : Bytes
  pub payload : Bytes

-- The server has the page, with an extension that it knows.
pub record HasPage (disk : Disk) (p : Page) : Type 0 where
  pub plain : IsPlainUri disk p.uri
  pub file : disk.file (codes "www" ++ p.uri) ≡ some p.payload
  pub some_bytes : 0 < length p.payload
  pub has_extension : strchr (codes "www" ++ p.uri) b'.' ≡ some p.extension
  pub known : content_type p.extension ≡ some p.type
  pub fits_header : length (response_header (codes "HTTP/1.1") p.type (length p.payload)) < bufsize

abbrev page_fields : Bytes → HttpRequest
page_fields uri = record {
  method = some (codes "GET");
  uri = some uri;
  version = some (codes "HTTP/1.1");
  connection = some (codes "close");
  host = some (codes "localhost");
}

-- The connection of a client that got its page.
abbrev pub page_answer : Page → Connection
page_answer p = close (
    send
      ((codes "HTTP/1.1"
          ++ codes " 200 OK\r\nContent-Type:"
          ++ p.type
          ++ codes "\r\nContent-Length:"
          ++ decimal (length p.payload)
          ++ codes "\r\n\r\n")
        ++ p.payload)
      fresh)

scan_request-page_line :
    (uri : Bytes)
    → uri ≢ []
    → avoids (codes " ") uri ≡ true
    → scan_request (page_line uri) ≡ page_fields uri
unfolding scan_request
scan_request-page_line uri n h = rw (
    strtok_token (codes " ") uri b' '
      (codes "HTTP/1.1\r\nHost: localhost\r\nConnection: close\r\n\r") n h refl)

elem-page_request : (uri : Bytes) → elem 0 uri ≡ false → elem 0 (page_request uri) ≡ false
elem-page_request uri h = rw (
  append_assoc uri (codes " HTTP/1.1\r\nHost: localhost\r\nConnection: close\r\n\r") (codes "\n"),
  elem-append 0 uri,
  h,
)

module _ (disk : Disk) (g : Garbage) where
  read_request-page_request :
      (uri : Bytes)
      → IsPlainUri disk uri
      → read_request (received_text g (page_request uri)) ≡ ok (page_fields uri)
  unfolding read_request
  read_request-page_request uri q =
      let text = page_request uri in
      let received : received_text g text ≡ text =
        rw (lt→ltb _ _ q.short) (cstr_self text (elem-page_request uri q.no_nul)) in
      let shorter : length (page_line uri) < bufsize =
        omega (arith, q.short, length-append (page_line uri) (codes "\n")) in
      let not_empty : (length text == 0) ≡ false = ground arith in
      rw (received, take_but_last (page_line uri) b'\n', not_empty)
        (rw (lt→ltb _ _ shorter) (ap ok (scan_request-page_line uri q.ne_nil q.no_blank)))

  -- A thread answers a plain request for a page that the server has, with an extension that it
  -- knows, with the response header, the type and the length, and the page's bytes, and closes the
  -- connection.
  pub parse_request-page :
      (p : Page)
      → HasPage disk p
      → parse_request disk g (page_request p.uri) fresh ≡ ok (served (page_answer p))
  unfolding parse_request dispatch service_request relative_path respond
  parse_request-page p h =
      let full : (length p.payload == 0) ≡ false = ground arith in
      rw (
        read_request-page_request p.uri h.plain,
        h.plain.below,
        lt→ltb _ _ h.plain.fits_path,
        h.plain.not_root,
        h.plain.no_directory,
        h.file,
        h.has_extension,
        h.known,
        lt→ltb _ _ h.fits_header,
        full,
      )

  -- A thread that gets a plain request for a file that the server does not have answers it with 404
  -- and the page's text, closes the connection, and ends the process with all its threads.
  pub parse_request-missing :
      (uri : Bytes)
      → IsPlainUri disk uri
      → disk.file (codes "www" ++ uri) ≡ none
      → parse_request disk g (page_request uri) fresh
        ≡ ok (
            exited (
              close (
                send
                  (codes
                      "HTTP/1.1 404 Not Found\r\nContent-Type: text/plain\r\nContent-Length: 18\r\n\r\n404 Page Not Found"
                    ++ 0 ∷ [])
                  fresh)))
  unfolding parse_request dispatch service_request relative_path
  parse_request-missing uri q missing = rw (
    read_request-page_request uri q,
    q.below,
    lt→ltb _ _ q.fits_path,
    q.not_root,
    q.no_directory,
    missing,
  )
