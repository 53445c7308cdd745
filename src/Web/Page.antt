-- ===== src/Web/Page.antt =====
-- A page that the web server has, from the request to the response.
use network_systems.Prelude.{
  take_but_last, ◌<◌, ◌≡◌, ◌≢◌, ◌∙◌, refl, sym, ap, true, false, [], ◌++◌, Option, some, none,
  arith, length, append_assoc, lt→ltb, length-append, ◌==◌,
}
use network_systems.CString.{
  Bytes, codes, decimal, cstr_self, contains, strstr, strstr_skip, strchr, strtok_token, avoids,
  elem, elem-append,
}
use network_systems.Machine.{ok}
use network_systems.Stream.{bufsize}
use network_systems.Web.Content.{content_type}
use network_systems.Web.Request.{Garbage, HttpRequest, read_request, scan_request}
use network_systems.Web.Reply.{Connection, send}
use network_systems.Web.Service.{
  Disk, returned, parse_request, handle, dispatch, service_request, respond, relative_path,
  default_connection, response_header, temp_size, received_text,
}

-- A request for a page, up to its last byte, which `parse_request` overwrites.
abbrev pub page_line : Bytes → Bytes
page_line uri = codes "GET " ++ (uri ++ codes " HTTP/1.1\r\nConnection: keep-alive\r\n\r")

abbrev pub page_request : Bytes → Bytes
page_request uri = page_line uri ++ codes "\n"

-- A URI that the request line can carry, and that stays below www.
pub record IsPlainUri (uri : Bytes) : Type 0 where
  pub ne_nil : uri ≢ []
  pub no_blank : avoids (codes " ") uri ≡ true
  pub no_nul : elem 0 uri ≡ false
  pub no_connection : strstr (uri ++ codes " ") (codes "Connection: ") ≡ none
  pub below : contains uri (codes "..") ≡ false
  pub short : length (page_request uri) < bufsize

-- A file that the URI names, with an extension that the server knows.
pub record HasPage (disk : Disk) (uri extension type payload : Bytes) : Type 0 where
  pub no_directory : disk.is_directory (codes "www" ++ uri) ≡ false
  pub file : disk.file (codes "www" ++ uri) ≡ some payload
  pub some_bytes : 0 < length payload
  pub fits_path : length (codes "www" ++ uri) < temp_size
  pub has_extension : strchr (codes "www" ++ uri) b'.' ≡ some extension
  pub known : content_type extension ≡ some type
  pub fits_header :
      length (response_header (codes "HTTP/1.1") type (length payload) (codes "keep-alive"))
      < bufsize

abbrev page_fields : Bytes → Option Bytes → HttpRequest
page_fields uri host = record {
  method = some (codes "GET");
  uri = some uri;
  version = some (codes "HTTP/1.1");
  connection = some (codes "keep-alive");
  host = host;
}

scan_request-page_line :
    (host_buf uri : Bytes)
    → IsPlainUri uri
    → strstr host_buf (codes "Host: ") ≡ none
    → scan_request host_buf (page_line uri) ≡ page_fields uri (some (codes "keep-alive"))
unfolding scan_request
scan_request-page_line host_buf uri q h = rw (
  strtok_token (codes " ") uri b' ' (codes "HTTP/1.1\r\nConnection: keep-alive\r\n\r") q.ne_nil
      q.no_blank refl,
  h,
  skipped,
)
  where
    skipped :
        strstr (uri ++ codes " HTTP/1.1\r\nConnection: keep-alive\r\n\r") (codes "Connection: ")
        ≡ some (codes "Connection: keep-alive\r\n\r")
    skipped =
        ap (λ s. strstr s (codes "Connection: "))
          (sym (append_assoc uri (codes " ") (codes "HTTP/1.1\r\nConnection: keep-alive\r\n\r")))
        ∙ strstr_skip (uri ++ codes " ") b'H' (codes "TTP/1.1\r\nConnection: keep-alive\r\n\r")
            (codes "Connection: ") refl q.no_connection

elem-page_request : (uri : Bytes) → elem 0 uri ≡ false → elem 0 (page_request uri) ≡ false
elem-page_request uri h = rw (
  append_assoc uri (codes " HTTP/1.1\r\nConnection: keep-alive\r\n\r") (codes "\n"),
  elem-append 0 uri,
  h,
)

read_request-page_request :
    (g : Garbage) (uri : Bytes)
    → IsPlainUri uri
    → strstr g.host_buf (codes "Host: ") ≡ none
    → read_request g (received_text g (page_request uri))
      ≡ ok (page_fields uri (some (codes "keep-alive")))
unfolding read_request
read_request-page_request g uri q h =
    let text = page_request uri in
    let received : received_text g text ≡ text =
      rw (lt→ltb _ _ q.short) (cstr_self text (elem-page_request uri q.no_nul)) in
    let shorter : length (page_line uri) < bufsize =
      omega (arith, q.short, length-append (page_line uri) (codes "\n")) in
    let not_empty : (length text == 0) ≡ false = ground arith in
    rw (received, take_but_last (page_line uri) b'\n', not_empty)
      (rw (lt→ltb _ _ shorter) (ap (λ r. ok r) (scan_request-page_line g.host_buf uri q h)))

service_request-HasPage :
    (disk : Disk) (g : Garbage) (uri extension type payload : Bytes) (host : Option Bytes)
    (c : Connection)
    → HasPage disk uri extension type payload
    → service_request disk g true (page_fields uri host) c
      ≡ ok (
          returned (
            send
              (response_header (codes "HTTP/1.1") type (length payload) (codes "keep-alive")
                ++ payload)
              c))
unfolding service_request relative_path respond
service_request-HasPage disk g uri extension type payload host c p =
    let full : (length payload == 0) ≡ false = ground arith in
    rw (
      lt→ltb _ _ p.fits_path,
      p.no_directory,
      p.file,
      p.has_extension,
      p.known,
      lt→ltb _ _ p.fits_header,
      full,
    )

-- A page that the server has is sent whole: a request for it on a connection that is to be kept,
-- with no other header, is answered by the response header, with the length and the type of the
-- file, and the file's bytes, and the connection stays open. The URI is plain, the file is not
-- empty and has an extension that the server knows, and `host_buf` does not hold "Host: ".
pub parse_request-page_request :
    (disk : Disk) (g : Garbage) (uri extension type payload : Bytes) (c : Connection)
    → IsPlainUri uri
    → HasPage disk uri extension type payload
    → strstr g.host_buf (codes "Host: ") ≡ none
    → parse_request disk g true (page_request uri) c
      ≡ ok (
          returned (
            send
              ((codes "HTTP/1.1"
                  ++ codes " 200 OK\r\nContent-Type: "
                  ++ type
                  ++ codes "\r\nContent-Length: "
                  ++ decimal (length payload)
                  ++ codes "\r\nConnection: "
                  ++ codes "keep-alive"
                  ++ codes "\r\n\r\n")
                ++ payload)
              c))
unfolding parse_request handle dispatch default_connection
parse_request-page_request disk g uri extension type payload c q p h =
    rw (read_request-page_request g uri q h, q.below)
      (service_request-HasPage disk g uri extension type payload (some (codes "keep-alive")) c p)
